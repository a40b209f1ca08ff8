-- ===== src/Backend/Run.antt =====
-- run_task (backends.py): claim a task, run its function, record how it ended.
-- The task function, the import of it and the signal receivers are code outside the package: an
-- `Environment` says what they do, and they may change the store in any way while they run.
pub mod Final
pub mod Ends
use django_tasks_redis.Prelude.{
  ℕ, Bool, true, false, Option, none, some, List, [], ◌∷◌, Text, text_eq, codes, Error, Result, ok,
  raise, does_not_exist, Exec, ◌>>=◌, ◌>>◌, pure,
}
use django_tasks_redis.Task.{
  Hash, Value, Status, TaskError, text, task_path, args_json, kwargs_json, takes_context, text_of,
}
use django_tasks_redis.TaskResult.{TaskResult}
use django_tasks_redis.Redis.{Server, execute, hash_or_empty}
use django_tasks_redis.Backend.Config.{Config, result_key}
use django_tasks_redis.Backend.Claim.{claim_task}
use django_tasks_redis.Backend.Data.{data_to_result, required}
use django_tasks_redis.Backend.Finish.{record_error, record_success}

-- A call for its effect only.
abbrev pub Done : Type 0
Done = Unit

-- The code that a run calls and that the package does not hold.
pub record Environment (S : Type 0) : Type 0 where
  -- _resolve_task: a Task with its `takes_context`, or a plain function, or an exception
  pub resolve : Text → Result (Option Bool)
  -- the function at a path, called with the JSON of args and kwargs and with the context, if it takes
  -- one; its value is the JSON of the normalised return value
  pub call : Text → Text → Text → Option TaskResult → Exec S Text
  -- the receivers of task_started and task_finished
  pub task_started : TaskResult → Exec S Done
  pub task_finished : TaskResult → Exec S Done
  -- the class path and the traceback of an exception
  pub describe : Error → TaskError

abbrev pub lift : {S A : Type 0} → Result A → Exec S A
lift m s = (m, s)

-- `task_data.get("takes_context", "false") == "true"`, for a plain function
abbrev pub wants_context : Option Bool → Option Value → Bool
wants_context (some b) stored = b
wants_context none (some v) = text_eq (text_of v) (codes "true")
wants_context none none = false

abbrev pub context_of : Bool → TaskResult → Option TaskResult
context_of true result = some result
context_of false result = none

abbrev pub json_or : Option Value → Text → Text
json_or none d = d
json_or (some v) d = text_of v

-- The result of a run that was made.
abbrev pub unwrap : {S : Type 0} → Result TaskResult × S → Result (Option TaskResult) × S
unwrap (ok result, s) = (ok (some result), s)
unwrap (raise e, s) = (raise e, s)

module _ {S : Type 0} (r : Server S) (self : Config) (env : Environment S) where
  -- The first `try`: resolve the task, build its result, send task_started.
  unfoldable pub start : Hash → Exec S (Option Bool × TaskResult)
  start task_data = do
    path ← lift (required (task_data task_path))
    task ← lift (env.resolve (text_of path))
    result ← lift (data_to_result self.alias task_data)
    env.task_started result
    pure (task, result)

  -- Read the hash back as `task_data`, log, send task_finished.
  unfoldable pub report : Text → Exec S TaskResult
  report task_id s =
      let task_data = hash_or_empty (r.hgetall s (result_key self task_id)) in
      (do
        final_result ← lift (data_to_result self.alias task_data)
        lift (required (task_data task_path))
        env.task_finished final_result
        pure final_result)
        s

  -- The second `try` up to the transaction of a success: the value of the function.
  unfoldable pub body : Hash → Option Bool → TaskResult → Exec S Text
  unfolding text_of
  body task_data task task_result = do
    path ← lift (required (task_data task_path))
    env.call (text_of path) (json_or (task_data args_json) (codes "[]"))
        (json_or (task_data kwargs_json) (codes "{}"))
        (context_of (wants_context task (task_data takes_context)) task_result)

  -- `except Exception as e` of the second `try`, with the `task_data` that was read last.
  unfoldable pub failed_with : Text → Hash → ℕ → Error → S → Result (Option TaskResult) × S
  failed_with task_id task_data failed_at e s = unwrap (
      report task_id (execute r (record_error self task_id task_data (env.describe e) failed_at) s))

  -- The rest of the second `try`, after the refresh of `task_data`.
  reported : Text → Hash → ℕ → Result TaskResult × S → Result (Option TaskResult) × S
  unfolding failed_with
  reported task_id task_data failed_at (ok result, s) = (ok (some result), s)
  reported task_id task_data failed_at (raise e, s) = failed_with task_id task_data failed_at e s

  ended : Text → Hash → ℕ → ℕ → Result Text × S → Result (Option TaskResult) × S
  unfolding reported
  ended task_id task_data finished_at failed_at (raise e, s) =
      failed_with task_id task_data failed_at e s
  ended task_id task_data finished_at failed_at (ok value, s) =
      let s1 = execute r (record_success self task_id task_data value finished_at) s in
      let refreshed = hash_or_empty (r.hgetall s1 (result_key self task_id)) in
      reported task_id refreshed failed_at (report task_id s1)

  started :
      Text → Hash → ℕ → ℕ → Result (Option Bool × TaskResult) × S → Result (Option TaskResult) × S
  unfolding ended
  started task_id task_data finished_at failed_at (ok (task, result), s) =
      ended task_id task_data finished_at failed_at (body task_data task result s)
  started task_id task_data finished_at failed_at (raise e, s) =
      (raise e, execute r (record_error self task_id task_data (env.describe e) failed_at) s)

  run_claimed : Text → ℕ → ℕ → Option Hash → S → Result (Option TaskResult) × S
  unfolding started
  run_claimed task_id finished_at failed_at none s = (raise (does_not_exist task_id), s)
  run_claimed task_id finished_at failed_at (some task_data) s =
      started task_id task_data finished_at failed_at (start task_data s)

  after_claim : Text → ℕ → ℕ → Result Bool × S → Result (Option TaskResult) × S
  unfolding run_claimed
  after_claim task_id finished_at failed_at (raise e, s) = (raise e, s)
  after_claim task_id finished_at failed_at (ok false, s) = (ok none, s)
  after_claim task_id finished_at failed_at (ok true, s) =
      run_claimed task_id finished_at failed_at (r.hgetall s (result_key self task_id)) s

  -- `claimed_at`, `finished_at` and `failed_at` are the times that the run reads in turn.
  unfoldable pub run_task :
      Text → Option Text → Option (List Status) → ℕ → ℕ → ℕ → Exec S (Option TaskResult)
  unfolding after_claim
  run_task task_id worker_id from_statuses claimed_at finished_at failed_at s =
      after_claim task_id finished_at failed_at
        (claim_task r self task_id worker_id from_statuses claimed_at s)
