-- ===== src/Supervisor/Supervised.antt =====
-- The loop of the supervisor (supervisor.py, _supervise, _apply_scaling and _check_failing).
pub mod Running
use django_tasks_redis.Prelude.{
  ℕ, zero, suc, ◌+◌, Bool, true, false, not, ◌&&◌, ◌||◌, Option, none, some, List, [], ◌∷◌, ltb,
  leb, any, all, select, is_some, if◌then◌else◌,
}
use django_tasks_redis.Prelude.Int.{ℤ, pos, negsuc}
use django_tasks_redis.Supervisor.Slots.{
  Settings, Worker, Supervisor, is_running, is_active, is_failing, is_stable, reap, start_due,
  add_slot, retire_newest,
}

add_slots : ℕ → ℕ → Supervisor → Supervisor
add_slots now zero s = s
add_slots now (suc n) s = add_slots now n (add_slot now s)

retire_slots : ℕ → Supervisor → Supervisor
retire_slots zero s = s
retire_slots (suc n) s = retire_slots n (record s { workers = retire_newest s.workers })

-- _apply_scaling, of `_pending_scale`; the requests are all taken.
unfoldable pub apply_scaling : ℕ → ℤ → Supervisor → Supervisor
unfolding add_slots retire_slots
apply_scaling now (pos n) s = add_slots now n s
apply_scaling now (negsuc n) s = retire_slots (suc n) s

-- _handle_scaling_signal: SIGTTIN adds a worker, SIGTTOU removes one.
unfoldable pub handle_scaling_signal : Bool → ℤ → ℤ
handle_scaling_signal true (pos n) = pos (suc n)
handle_scaling_signal true (negsuc zero) = pos 0
handle_scaling_signal true (negsuc (suc n)) = negsuc n
handle_scaling_signal false (pos zero) = negsuc 0
handle_scaling_signal false (pos (suc n)) = pos n
handle_scaling_signal false (negsuc n) = negsuc (suc n)

abbrev pub nonempty : List Worker → Bool
nonempty [] = false
nonempty (w ∷ ws) = true

-- `worker.clean_exit_at is not None and worker.clean_exit_at >= self._failing_since`
abbrev pub exited_since : Option ℕ → ℕ → Bool
exited_since none since = false
exited_since (some t) since = leb since t

-- _check_failing: `_failing_since` before and after.
unfoldable pub check_failing : Settings → ℕ → List Worker → Option ℕ → Option ℕ
check_failing self now workers none =
    let active = select is_active workers in
    if nonempty active && all (λ w. is_failing self w now) active then some now else none
check_failing self now workers (some since) =
    if any (λ w. is_stable self w now || exited_since w.clean_exit_at since)
      (select is_active workers)
    then none
    else some since

-- What a turn of the loop reads: the scaling asked for since the last turn, the exit codes, the pids
-- of new processes, the time, and whether a shutdown is requested at its start.
pub record Tick : Type 0 where
  pub pending_scale : ℤ
  pub poll : Worker → Option ℤ
  pub child : ℕ → ℕ
  pub now : ℕ
  pub is_set : Bool

-- The supervisor with `_failing_since`.
pub record Watch : Type 0 where
  pub supervisor : Supervisor
  pub failing_since : Option ℕ

module _ (self : Settings) where
  -- The body of the loop, up to the test that ends it.
  unfoldable pub supervise_turn : Tick → Watch → Watch
  supervise_turn tick watch =
      let scaled = apply_scaling tick.now tick.pending_scale watch.supervisor in
      let reaped = reap self tick.poll tick.now scaled in
      record {
        supervisor = start_due tick.now tick.child reaped;
        failing_since = check_failing self tick.now reaped.workers watch.failing_since;
      }

  -- `any(worker.running or worker.restart_at is not None …)`
  abbrev pub is_busy : List Worker → Bool
  is_busy = any (λ w. is_running w || is_some w.restart_at)

  -- Whether the loop has returned by itself, and the state, after some turns or at a shutdown.
  unfoldable pub supervise : List Tick → Watch → Bool × Watch
  supervise [] watch = (false, watch)
  supervise (tick ∷ ticks) watch =
      let after = supervise_turn tick watch in
      let rest = supervise ticks after in
      if tick.is_set
      then (false, watch)
      else if not (is_busy after.supervisor.workers)
      then (true, after)
      else rest
