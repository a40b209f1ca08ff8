-- ===== src/Supervisor/Stopping.antt =====
-- Stopping the workers (supervisor.py, _stop_workers, _kill_workers and _finish). Times count
-- milliseconds on the monotonic clock.
pub mod Stopped
use django_tasks_redis.Prelude.{
  ℕ, zero, suc, ◌+◌, Bool, true, false, not, ◌&&◌, ◌||◌, Option, none, some, List, [], ◌∷◌, ◌++◌,
  ltb, leb, any, if◌then◌else◌,
}
use django_tasks_redis.Prelude.Int.{ℤ, pos}
use django_tasks_redis.Supervisor.ExitCodes.{combine_exit_codes}
use django_tasks_redis.Supervisor.Slots.{Settings, Worker, Supervisor, is_running, reap}

-- The settings that only stopping reads.
pub record StopSettings : Type 0 where
  pub graceful : Bool
  pub shutdown_timeout : ℕ
  pub failed_exit_code : ℤ

-- SHUTDOWN_GRACE
abbrev pub shutdown_grace : ℕ
shutdown_grace = 1000

-- What the supervisor observes at each look at its children: the exit code of a process that has
-- exited, the time of the reaping, the requests so far, and the time that the deadline is held against.
pub record Look : Type 0 where
  pub poll : Worker → Option ℤ
  pub now : ℕ
  pub request_count : ℕ
  pub checked_at : ℕ

-- _kill_workers; `killed` is the code that wait() gives for a process that was killed.
kill_all : (Worker → ℤ) → List Worker → List ℤ × List Worker
kill_all killed [] = ([], [])
kill_all killed (w ∷ ws) =
    let (codes, rest) = kill_all killed ws in
    if is_running w
    then (killed w ∷ codes, record w { process = none } ∷ rest)
    else (codes, w ∷ rest)

unfoldable pub kill_workers : (Worker → ℤ) → Supervisor → Supervisor
unfolding kill_all
kill_workers killed s =
    let (codes, workers) = kill_all killed s.workers in
    record s { workers = workers; exit_codes = s.exit_codes ++ codes }

abbrev pub past : Option ℕ → ℕ → Bool
past none now = false
past (some deadline) now = leb deadline now

module _ (self : Settings) (stopping : StopSettings) where
  unfoldable pub stop_deadline : ℕ → Option ℕ
  stop_deadline now =
      if not stopping.graceful
      then some now
      else if ltb 0 stopping.shutdown_timeout
      then some (now + stopping.shutdown_timeout + shutdown_grace)
      else none

  module _ (looks : ℕ → Look) (killed : Worker → ℤ) where
    -- The loop of _stop_workers, from the look of a number on: the supervisor and `_forced`, none if the
    -- fuel, one for each look, ran out.
    stop_from : ℕ → ℕ → Option ℕ → Supervisor → Option (Supervisor × Bool)
    stop_from zero turn deadline s = none
    stop_from (suc fuel) turn deadline s =
        let look = looks turn in
        let reaped = reap self look.poll look.now s in
        let rest = stop_from fuel (suc turn) deadline reaped in
        if not (any is_running reaped.workers)
        then some (reaped, false)
        else if ltb 1 look.request_count || past deadline look.checked_at
        then some (kill_workers killed reaped, true)
        else rest

    -- _stop_workers at a time
    unfoldable pub stop_workers : ℕ → ℕ → Supervisor → Option (Supervisor × Bool)
    unfolding stop_from stop_deadline
    stop_workers fuel now s =
        let stopped = stop_from fuel 0 (stop_deadline now) s in
        if not (any is_running s.workers) then some (s, false) else stopped

  -- _finish: the exit code of the command.
  unfoldable pub finish : Supervisor → Bool → ℤ
  finish s forced =
      if forced
      then pos 1
      else combine_exit_codes self.empty_exit_code stopping.failed_exit_code s.exit_codes
