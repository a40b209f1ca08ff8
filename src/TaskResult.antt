-- ===== src/TaskResult.antt =====
-- django.tasks.base.TaskResult, as `_data_to_result` fills it in.
use django_tasks_redis.Prelude.{ℕ, Option, List, Text}
use django_tasks_redis.Task.{Status, TaskError}

pub record TaskResult : Type 0 where
  pub id : Text
  pub status : Status
  pub enqueued_at : Option ℕ
  pub started_at : Option ℕ
  pub finished_at : Option ℕ
  pub last_attempted_at : Option ℕ
  pub args : Text
  pub kwargs : Text
  pub backend : Text
  pub errors : List TaskError
  pub worker_ids : List Text
  pub return_value : Option Text
