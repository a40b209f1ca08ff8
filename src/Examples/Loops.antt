-- ===== src/Examples/Loops.antt =====
-- The theorems on the loops of the supervisor, and on signals.
use django_tasks_redis.Prelude.{
  ◌⊎◌, ℕ, ◌+◌, ◌≡◌, refl, true, false, none, some, List, ◌∷◌, length, if◌then◌else◌, or_else, ◌&&◌,
  ltb, arith, ◌==◌, [],
}
use django_tasks_redis.Prelude.Int.{pos, negsuc}
use django_tasks_redis.Shutdown.{
  Process, sig_dfl, callable, handle_signals, new, enter, exit, nonempty, forced_exit_code,
}
use django_tasks_redis.Shutdown.Requested.{handle_signals-new}
use django_tasks_redis.Shutdown.Restored.{enter-exit, contains}
use django_tasks_redis.Supervisor.Slots.{Settings, Supervisor, add_slot, start_due}
use django_tasks_redis.Supervisor.Slots.Living.{Staffed}
use django_tasks_redis.Supervisor.Stopping.{StopSettings, Look, stop_workers, stop_deadline}
use django_tasks_redis.Supervisor.Stopping.Stopped.{ExitsAlone, Kills, stop_workers-ends}
use django_tasks_redis.Supervisor.Supervised.{Tick, Watch, supervise}
use django_tasks_redis.Supervisor.Supervised.Running.{supervise-Staffed}

-- A process with a handler for SIGINT.
abbrev process : Process
process = record {
  handlers = λ k. if k == 2 then some (callable 1) else none;
  active_shutdown = none;
  exited = none;
}

-- SIGTERM, and then SIGINT
handle_signals-new_example :
    let later : List ℕ = 2 ∷ [] in
    let (self, after) = handle_signals (15 ∷ 2 ∷ []) (new 7 (15 ∷ 2 ∷ []) 30 true, process) in
    (self.event ≡ true)
    × (self.request_count ≡ 1 + length later)
    × (self.signum ≡ some 15)
    × (self.timer ≡ (if ltb 0 30 then some 30 else none))
    × (after.exited ≡ (if nonempty later && true then some forced_exit_code else none))
handle_signals-new_example = handle_signals-new 7 (15 ∷ 2 ∷ []) 30 true process 15 (2 ∷ []) refl

enter-exit_example :
    let (self, after) =
      exit
        (λ k. true)
        (handle_signals
          (15 ∷ [])
          (enter (λ k. true) true (new 7 (15 ∷ 2 ∷ []) 30 true, process))) in
    ((k : ℕ)
      → after.handlers k ≡ (
          if true && contains k (15 ∷ 2 ∷ [])
          then some (or_else (process.handlers k) sig_dfl)
          else process.handlers k))
    × (after.active_shutdown ≡ process.active_shutdown)
    × (self.installed ≡ false)
    × (self.timer ≡ none)
enter-exit_example = enter-exit (λ k. true) 7 (15 ∷ 2 ∷ []) 30 true process (15 ∷ []) refl

abbrev settings : Settings
settings = record {
  restart = true;
  empty_exit_code = pos 3;
  stable_after = 30000;
  backoff_start = 1000;
  backoff_max = 60000;
}

-- Two slots, and the same started.
abbrev fresh : Supervisor
fresh = record {
  workers = [];
  next_index = 1;
  exit_codes = [];
  restarts = 0;
  abnormal_restarts = 0;
  shutting_down = false;
}

abbrev two : Supervisor
two = add_slot 0 (add_slot 0 fresh)

two-Staffed : Staffed two.workers
unfolding add_slot
two-Staffed = (refl, omega arith)

abbrev both_running : Supervisor
both_running = start_due 0 (λ i. i) two

-- The children keep running until a second request comes, at the third look.
abbrev stopping : StopSettings
stopping = record { graceful = true; shutdown_timeout = 5000; failed_exit_code = pos 4 }

abbrev look : ℕ → Look
look i = record { poll = λ w. none; now = i; request_count = i; checked_at = i }

stop_workers-ends_example :
    ExitsAlone settings stopping look
      (λ w. negsuc 8)
      0
      both_running
      (stop_workers settings stopping look (λ w. negsuc 8) 3 0 both_running)
    ⊎ Kills settings stopping look
        (λ w. negsuc 8)
        0
        (stop_deadline settings stopping 0)
        both_running
        (stop_workers settings stopping look (λ w. negsuc 8) 3 0 both_running)
stop_workers-ends_example =
    stop_workers-ends settings stopping look (λ w. negsuc 8) 0 2 both_running refl

-- Both processes exit, one more worker is asked for, and then one fewer.
abbrev tick : Tick
tick = record {
  pending_scale = pos 1;
  poll = λ w. some (pos 1);
  child = λ i. i;
  now = 10;
  is_set = false;
}

abbrev watch : Watch
watch = record { supervisor = two; failing_since = none }

abbrev ticks : List Tick
ticks = tick ∷ record tick { pending_scale = negsuc 0; now = 2000 } ∷ []

supervise-Staffed_example :
    let (returned, after) = supervise settings ticks watch in
    (returned ≡ false) × Staffed after.supervisor.workers
unfolding add_slot
supervise-Staffed_example = supervise-Staffed settings refl ticks watch refl two-Staffed
