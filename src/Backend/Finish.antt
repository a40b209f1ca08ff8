-- ===== src/Backend/Finish.antt =====
-- The writes that end a run, each one transaction with its index move: the success of `run_task`,
-- `_record_error` and `mark_task_failed` (backends.py).
pub mod Failed
pub mod Written
use django_tasks_redis.Prelude.{
  ℕ, Bool, true, false, Option, none, some, List, [], ◌∷◌, ◌++◌, Text, codes, if◌then◌else◌,
}
use django_tasks_redis.Prelude.Int.{pos, pos_part, ltb_ℤ}
use django_tasks_redis.Task.{
  Hash, Value, TaskError, state, text, time, errors, ready, running, successful, failed, status,
  errors_json, finished_at, return_value_json, queue_name, errors_of, queue_or_default,
}
use django_tasks_redis.Redis.{Command, hset, expire, Server, execute, hash_or_empty}
use django_tasks_redis.Backend.Config.{Config, result_key}
use django_tasks_redis.Backend.Index.{index_status}
use django_tasks_redis.Backend.Claim.{transition_task_status}

module _ (self : Config) where
  -- `if self.completed_task_ttl > 0: pipeline.expire(…)`
  unfoldable pub expire_completed : Text → List Command
  expire_completed task_id =
      if ltb_ℤ (pos 0) self.completed_task_ttl
      then expire (result_key self task_id) (pos_part self.completed_task_ttl) ∷ []
      else []

  unfoldable pub record_error : Text → Hash → TaskError → ℕ → List Command
  unfolding expire_completed
  record_error task_id task_data error now =
      hset (result_key self task_id) (
        (status, state failed)
        ∷ (errors_json, errors (errors_of (task_data errors_json) ++ error ∷ []))
        ∷ (finished_at, time now)
        ∷ [])
      ∷ (expire_completed task_id
          ++ index_status self task_id (queue_or_default (task_data queue_name)) failed now now)

  -- The success branch of run_task.
  unfoldable pub record_success : Text → Hash → Text → ℕ → List Command
  unfolding expire_completed
  record_success task_id task_data return_value now =
      hset (result_key self task_id) (
        (status, state successful)
        ∷ (return_value_json, text return_value)
        ∷ (finished_at, time now)
        ∷ [])
      ∷ (expire_completed task_id
          ++ index_status self task_id (queue_or_default (task_data queue_name)) successful now now)

abbrev pub abandoned_path : Text
abandoned_path = codes "django_tasks_redis.exceptions.TaskAbandoned"

module _ {S : Type 0} (r : Server S) (self : Config) where
  -- `moved_at` and `recorded_at` are the times that the two writes read.
  abandon : Bool → Text → Text → ℕ → S → Bool × S
  abandon false task_id reason recorded_at s = (false, s)
  abandon true task_id reason recorded_at s =
      let task_data = hash_or_empty (r.hgetall s (result_key self task_id)) in
      let error : TaskError = record {
        exception_class_path = abandoned_path;
        traceback = reason;
      } in
      (true, execute r (record_error self task_id task_data error recorded_at) s)

  unfoldable pub mark_task_failed : Text → Text → ℕ → ℕ → S → Bool × S
  unfolding abandon
  mark_task_failed task_id reason moved_at recorded_at s =
      let (moved, s') =
        transition_task_status r self task_id failed (ready ∷ running ∷ []) moved_at s in
      abandon moved task_id reason recorded_at s'
