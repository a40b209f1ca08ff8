-- ===== src/Views.antt =====
-- The HTTP endpoints (views.py): authentication in front of each, and what each one calls.
pub mod Dispatched
use django_tasks_redis.Prelude.{
  ℕ, Bool, true, false, Option, none, some, List, [], ◌∷◌, Text, codes, if◌then◌else◌, Result, ok,
  raise, Error, is_some, or_else,
}
use django_tasks_redis.Prelude.Int.{ℤ, pos, negsuc, ltb_ℤ}
use django_tasks_redis.TaskResult.{TaskResult}
use django_tasks_redis.Task.{Hash}
use django_tasks_redis.Redis.{Server}
use django_tasks_redis.Backend.Config.{Config}
use django_tasks_redis.Backend.Run.{Environment}
use django_tasks_redis.Auth.{Request, Response}
use django_tasks_redis.Auth.Handlers.{Handler}
use django_tasks_redis.Executor.{
  process_tasks, process_one_task, run_task_by_id, purge_completed_tasks, default_statuses,
  Surroundings,
}

-- The responses: an error, or what the JSON of a success is made from.
pub data Reply : Type 0 where
  error_reply : Response → Reply
  processed : List TaskResult → Reply
  task : TaskResult → Reply
  no_tasks : Reply
  deleted : ℕ → Reply

abbrev pub refuse : ℕ → Text → Reply
refuse status error = error_reply (record { status = status; error = error })

-- A view; none where a loop that it calls runs out of fuel.
abbrev pub View : Type 0 → Type 0
View S = S → Option (Result Reply × S)

-- `if not raw: return default`, and None for what is no integer
unfoldable pub int_param : (Text → Option ℤ) → Option Text → ℤ → Option ℤ
int_param int none default = some default
int_param int (some []) default = some default
int_param int (some (c ∷ cs)) default = int (c ∷ cs)

module _ {S : Type 0} where
  -- The loop over the handlers; the first rejection is remembered.
  try_handlers : Option Response → List Handler → Request → View S → View S
  try_handlers none [] request view s = view s
  try_handlers (some first) [] request view s = some (ok (error_reply first), s)
  try_handlers first (handler ∷ handlers) request view s = elim (handler request) [
    | raise e ↦ some (raise e, s)
    | ok none ↦ view s
    | ok (some rejection) ↦ try_handlers (some (or_else first rejection)) handlers request view s
  ]

  -- dispatch; the handlers of the backend that the request names, none for an unknown backend.
  unfoldable pub dispatch : Option (List Handler) → Request → View S → View S
  unfolding try_handlers
  dispatch none request view s = some (ok (refuse 400 (codes "Unknown backend")), s)
  dispatch (some []) request view s = some (
    ok (
        refuse 403 (
          codes
            "Task endpoints are disabled. Override get_auth_handlers() on the task backend, or set the AUTH_HANDLERS option, to enable them.")),
    s,
  )
  dispatch (some (handler ∷ handlers)) request view s =
      try_handlers none (handler ∷ handlers) request view s

  -- What a view makes of the answer of the call it stands for.
  answered : {A : Type 0} → (A → Reply) → Option (Result A × S) → Option (Result Reply × S)
  answered reply none = none
  answered reply (some (raise e, s)) = some (raise e, s)
  answered reply (some (ok a, s)) = some (ok (reply a), s)

-- `if max_tasks and tasks_processed >= max_tasks`: 0 is no limit, and a negative number ends the loop
-- after the first task, as 1 does.
abbrev limit_of : ℤ → ℕ
limit_of (pos n) = n
limit_of (negsuc n) = 1

abbrev one_task : Option TaskResult → Reply
one_task none = no_tasks
one_task (some result) = task result

abbrev executed : Option TaskResult → Reply
executed none = refuse 400 (codes "Task not in executable status")
executed (some result) = task result

-- `text` is str() of an exception.
abbrev run_or_missing {ℓ} :
    {S : Type ℓ} → (Error → Text) → Result (Option TaskResult) × S → Result Reply × S
run_or_missing text (raise e, s) = (ok (refuse 404 (text e)), s)
run_or_missing text (ok result, s) = (ok (executed result), s)

module _ {S : Type 0} (r : Server S) (self : Config) where
  module _ (env : Environment S) (outside : Surroundings S) (worker_id : Text)
      (int : Text → Option ℤ) (tries fuel : ℕ) where
    run_tasks : Option ℤ → View S
    run_tasks none s = some (ok (refuse 400 (codes "max_tasks must be an integer")), s)
    run_tasks (some max_tasks) s =
        answered processed
          (process_tasks r self env outside worker_id tries fuel (limit_of max_tasks) s)

    -- RunTasksView.post
    unfoldable pub run_tasks_view : Option Text → View S
    unfolding run_tasks int_param answered
    run_tasks_view max_tasks s = run_tasks (int_param int max_tasks (pos 0)) s

    -- RunOneTaskView.post
    unfoldable pub run_one_task_view : View S
    unfolding answered
    run_one_task_view s = answered one_task (process_one_task r self env outside worker_id tries s)

    -- ExecuteTaskView.post
    unfoldable pub execute_task_view : (Error → Text) → Text → Bool → View S
    execute_task_view text id allow_retry s =
        some (run_or_missing text (run_task_by_id r self env outside worker_id id allow_retry s))

  purge_days : Option ℤ → ℕ → List (Text × Hash) → View S
  unfolding answered
  purge_days none now tasks s = some (ok (refuse 400 (codes "days must be an integer")), s)
  purge_days (some days) now tasks s =
      let purged = purge_completed_tasks r self default_statuses [] days false now tasks s in
      if ltb_ℤ days (pos 0)
      then some (ok (refuse 400 (codes "days must be a non-negative integer")), s)
      else answered deleted (some purged)

  -- PurgeCompletedTasksView.post; `tasks` is what iter_task_data yields.
  unfoldable pub purge_view : (Text → Option ℤ) → Option Text → ℕ → List (Text × Hash) → View S
  unfolding purge_days int_param
  purge_view int days now tasks s = purge_days (int_param int days (pos 7)) now tasks s
