-- ===== src/Backend/Fetch/Stored.antt =====
-- A result that enqueue returns can be read back (backends.py, enqueue and get_result).
use django_tasks_redis.Prelude.{refl, some, none, [], ℕ, ◌≡◌, Bool, Option, Text, Result, ok}
use django_tasks_redis.Task.{
  text_of, ready, serialize_datetime, errors_of, worker_ids_of, deserialize_datetime,
}
use django_tasks_redis.TaskResult.{TaskResult}
use django_tasks_redis.Redis.{Server}
use django_tasks_redis.Backend.Config.{Config}
use django_tasks_redis.Backend.Data.{data_to_result}
use django_tasks_redis.Backend.Queue.{Task, enqueue, task_data_of}
use django_tasks_redis.Backend.Queue.Enqueued.{hgetall-after}
use django_tasks_redis.Backend.Fetch.{get_result}

module _ {S : Type 0} (r : Server S) (self : Config) where
  -- A task that is enqueued is returned as READY since the present time, with its id, the arguments and
  -- keyword arguments as given, the backend, no other times, no errors, no workers and no return
  -- value; and get_result of its id gives the same, if its path resolves.
  pub get_result-enqueue :
      (resolve : Text → Result (Option Bool)) (task : Task) (id args kwargs : Text) (now : ℕ)
      (built : Bool) (s : S) (found : Option Bool)
      → resolve task.path ≡ ok found
      → let (returned, after) = enqueue r self built task (ok (args, kwargs)) id now s in
        let result : TaskResult = record {
          id = id;
          status = ready;
          enqueued_at = some now;
          started_at = none;
          finished_at = none;
          last_attempted_at = none;
          args = args;
          kwargs = kwargs;
          backend = self.alias;
          errors = [];
          worker_ids = [];
          return_value = none;
        } in
        (returned ≡ ok result) × (get_result r self resolve id after ≡ ok result)
  unfolding get_result enqueue task_data_of text_of data_to_result serialize_datetime errors_of
      worker_ids_of deserialize_datetime
  get_result-enqueue resolve task id args kwargs now built s found resolves =
      (refl, rw (hgetall-after r self task id args kwargs now built s, resolves))
