-- ===== src/Backend/Fetch.antt =====
-- Reading a result back (backends.py, get_result).
pub mod Stored
use django_tasks_redis.Prelude.{Option, none, some, Bool, Text, Result, ok, raise, does_not_exist}
use django_tasks_redis.Prelude.Checked.{◌>>=◌}
use django_tasks_redis.Task.{Hash, task_path, text_of}
use django_tasks_redis.TaskResult.{TaskResult}
use django_tasks_redis.Redis.{Server}
use django_tasks_redis.Backend.Config.{Config, result_key}
use django_tasks_redis.Backend.Data.{data_to_result, required}

module _ {S : Type 0} (r : Server S) (self : Config) (resolve : Text → Result (Option Bool)) where
  get_stored : Text → Option Hash → Result TaskResult
  get_stored id none = raise (does_not_exist id)
  get_stored id (some task_data) = do
    path ← required (task_data task_path)
    found ← resolve (text_of path)
    data_to_result self.alias task_data

  -- get_result; `resolve` is _resolve_task.
  unfoldable pub get_result : Text → S → Result TaskResult
  unfolding get_stored
  get_result id s = get_stored id (r.hgetall s (result_key self id))
