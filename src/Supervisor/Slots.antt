-- ===== src/Supervisor/Slots.antt =====
-- The slots of a supervisor (supervisor.py, class WorkerSupervisor). Times and delays count
-- milliseconds on the monotonic clock; `index` is 1-based.
pub mod Backoff
pub mod Living
use django_tasks_redis.Prelude.{
  ℕ, suc, ◌+◌, ◌-◌, ◌*◌, ◌^◌, min, Bool, true, false, not, ◌&&◌, ◌||◌, Option, none, some, List, [],
  ◌∷◌, ◌++◌, ltb, leb, ◌==◌, all, any, select, length, is_some, if◌then◌else◌,
}
use django_tasks_redis.Prelude.Int.{ℤ, pos, negsuc, eqb_ℤ}

-- The settings of WorkerSupervisor.__init__.
pub record Settings : Type 0 where
  pub restart : Bool
  pub empty_exit_code : ℤ
  pub stable_after : ℕ
  pub backoff_start : ℕ
  pub backoff_max : ℕ

-- _Worker; `process` is the pid of the running process.
pub record Worker : Type 0 where
  pub index : ℕ
  pub process : Option ℕ
  pub started_at : ℕ
  pub restart_at : Option ℕ
  pub failures : ℕ
  pub retiring : Bool
  pub pid : Option ℕ
  pub exit_code : Option ℤ
  pub restart_after_abnormal : Bool
  pub clean_exit_at : Option ℕ

pub record Supervisor : Type 0 where
  pub workers : List Worker
  pub next_index : ℕ
  pub exit_codes : List ℤ
  pub restarts : ℕ
  pub abnormal_restarts : ℕ
  pub shutting_down : Bool

abbrev pub is_running : Worker → Bool
is_running w = is_some w.process

-- -SIGTERM, on POSIX
abbrev pub exited_on_signal : ℤ → Bool
exited_on_signal code = eqb_ℤ code (negsuc 14)

module _ (self : Settings) where
  abnormal : ℤ → Bool → Bool
  abnormal code stopped = not stopped && not (eqb_ℤ code (pos 0) || eqb_ℤ code self.empty_exit_code)

  -- _restart_delay: the number of failures in a row, and the delay.
  unfoldable pub restart_delay : ℕ → ℤ → ℕ → ℕ × ℕ
  restart_delay failures code uptime =
      if eqb_ℤ code (pos 0) || leb self.stable_after uptime
      then (0, 0)
      else (suc failures, min (self.backoff_start * 2 ^ failures) self.backoff_max)

  unfoldable pub is_stable : Worker → ℕ → Bool
  is_stable worker now = is_running worker && leb self.stable_after (now - worker.started_at)

  unfoldable pub is_failing : Worker → ℕ → Bool
  unfolding is_stable
  is_failing worker now = ltb 0 worker.failures && not (is_stable worker now)

  -- What _reap records of a worker that exited with `code`, and its slot, none if it is dropped.
  reap_exited : Bool → Worker → ℤ → ℕ → ℤ × Option Worker
  unfolding abnormal restart_delay
  reap_exited shutting_down worker code now =
      let stopped = (shutting_down || worker.retiring) && exited_on_signal code in
      let (failures, delay) = restart_delay worker.failures code (now - worker.started_at) in
      let ended = record worker {
        process = none;
        exit_code = some code;
        restart_after_abnormal = abnormal code stopped;
        clean_exit_at =
            if eqb_ℤ code (pos 0) && not stopped then some now else worker.clean_exit_at;
      } in
      (
        if stopped then pos 0 else code,
        if worker.retiring
            then none
            else if not self.restart || shutting_down
            then some ended
            else some (record ended { failures = failures; restart_at = some (now + delay) }),
      )

  reap_one : Bool → (Worker → Option ℤ) → ℕ → Worker → List ℤ × List Worker
  unfolding reap_exited
  reap_one shutting_down poll now worker =
      if is_running worker
      then elim (poll worker) [
        | none ↦ ([], worker ∷ [])
        | some code ↦
            let (reported, slot) = reap_exited shutting_down worker code now in
            (reported ∷ [], elim slot [ none ↦ [] | some kept ↦ kept ∷ [] ])
      ]
      else ([], worker ∷ [])

  -- The loop of _reap; `poll` is the exit code of a process that has exited.
  reap_all : Bool → (Worker → Option ℤ) → ℕ → List Worker → List ℤ × List Worker
  unfolding reap_one
  reap_all shutting_down poll now [] = ([], [])
  reap_all shutting_down poll now (worker ∷ workers) =
      let (codes, kept) = reap_one shutting_down poll now worker in
      let (codes', kept') = reap_all shutting_down poll now workers in
      (codes ++ codes', kept ++ kept')

  unfoldable pub reap : (Worker → Option ℤ) → ℕ → Supervisor → Supervisor
  unfolding reap_all
  reap poll now s =
      let (codes, kept) = reap_all s.shutting_down poll now s.workers in
      record s { workers = kept; exit_codes = s.exit_codes ++ codes }

-- _add_slot
unfoldable pub add_slot : ℕ → Supervisor → Supervisor
add_slot now s =
    let worker : Worker = record {
      index = s.next_index;
      process = none;
      started_at = 0;
      restart_at = some now;
      failures = 0;
      retiring = false;
      pid = none;
      exit_code = none;
      restart_after_abnormal = false;
      clean_exit_at = none;
    } in
    record s { workers = s.workers ++ worker ∷ []; next_index = s.next_index + 1 }

abbrev pub is_active : Worker → Bool
is_active worker = not worker.retiring

abbrev pub count_active : List Worker → ℕ
count_active [] = 0
count_active (w ∷ ws) = (if is_active w then 1 else 0) + count_active ws

-- `active[-1]` is marked and signalled if it runs, and dropped at once if it does not.
retire_last : List Worker → List Worker
retire_last [] = []
retire_last (w ∷ ws) =
    let rest = retire_last ws in
    if ltb 0 (count_active ws)
    then w ∷ rest
    else if is_active w
    then if is_running w then record w { retiring = true } ∷ ws else ws
    else w ∷ ws

-- _retire_newest
unfoldable pub retire_newest : List Worker → List Worker
unfolding retire_last
retire_newest workers = if leb (count_active workers) 1 then workers else retire_last workers

-- _spawn, of a process with the pid `child`, and its count in `_restarts`.
unfoldable pub spawn : ℕ → ℕ → Worker → Worker × ℕ
spawn now child worker = (
  record worker { process = some child; pid = some child; started_at = now; restart_at = none },
  if is_some worker.pid then 1 else 0,
)

-- `worker.restart_at is not None and worker.restart_at <= now`
abbrev pub is_due : Option ℕ → ℕ → Bool
is_due none now = false
is_due (some t) now = leb t now

-- _start_due; `child` is the pid that the system gives to the slot of an index.
start_due_all : ℕ → (ℕ → ℕ) → List Worker → List Worker × ℕ × ℕ
unfolding spawn
start_due_all now child [] = ([], 0, 0)
start_due_all now child (w ∷ ws) =
    let (rest, n, k) = start_due_all now child ws in
    let (started, again) = spawn now (child w.index) w in
    if not (is_running w) && is_due w.restart_at now
    then (started ∷ rest, again + n, (if w.restart_after_abnormal then again else 0) + k)
    else (w ∷ rest, n, k)

unfoldable pub start_due : ℕ → (ℕ → ℕ) → Supervisor → Supervisor
unfolding start_due_all
start_due now child s =
    let (workers, n, k) = start_due_all now child s.workers in
    record s {
      workers = workers;
      restarts = s.restarts + n;
      abnormal_restarts = s.abnormal_restarts + k;
    }
