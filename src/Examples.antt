-- ===== src/Examples.antt =====
-- Test data: a backend with a store in memory, one stored task, and code for it to run.
mod Claims
mod Runs
mod Messages
mod Producers
mod Index
mod Workers
mod Interleaving
mod Security
mod Loops
mod Recovering
use django_tasks_redis.Prelude.{
  ℕ, ◌≡◌, Bool, false, Option, none, some, List, [], ◌∷◌, Text, codes, text_eq_refl, Result, ok,
  raise, Error, other_error, Exec,
}
use django_tasks_redis.Prelude.Int.{pos}
use django_tasks_redis.Task.{
  Hash, Field, Value, Status, TaskError, text, state, level, time, ids, errors, task_id, task_path,
  args_json, kwargs_json, status, priority, queue_name, backend_name, run_after, enqueued_at,
  errors_json, worker_ids_json,
}
use django_tasks_redis.TaskResult.{TaskResult}
use django_tasks_redis.Redis.{Command, hset, hset_field}
use django_tasks_redis.Redis.Memory.{Memory, memory, empty, apply}
use django_tasks_redis.Backend.Config.{Config, result_key}
use django_tasks_redis.Backend.Run.{Environment}

abbrev config : Config
config = record {
  alias = codes "default";
  key_prefix = codes "django_tasks";
  result_ttl = pos 2592000;
  completed_task_ttl = pos 3600;
  max_deliveries = 5;
}

abbrev id : Text
id = codes "t1"

abbrev queue : Text
queue = codes "emails"

abbrev worker : Text
worker = codes "w1"

abbrev fields_of : Status → Value → List (Field × Value)
fields_of st due =
    (task_id, text id)
    ∷ (task_path, text (codes "app.tasks.send"))
    ∷ (args_json, text (codes "[1]"))
    ∷ (kwargs_json, text (codes "{}"))
    ∷ (status, state st)
    ∷ (priority, level (pos 5))
    ∷ (queue_name, text queue)
    ∷ (backend_name, text (codes "default"))
    ∷ (run_after, due)
    ∷ (enqueued_at, time 10)
    ∷ (errors_json, errors [])
    ∷ (worker_ids_json, ids [])
    ∷ []

abbrev hash_of : Status → Value → Hash
hash_of st due f = hset_field (fields_of st due) f none

abbrev stored : Status → Value → Memory
stored st due = apply (hset (result_key config id) (fields_of st due)) empty

stored_lem :
    (st : Status) (due : Value)
    → memory.hgetall (stored st due) (result_key config id) ≡ some (hash_of st due)
stored_lem st due = rw text_eq_refl

abbrev boom : Error
boom = other_error (codes "boom")

-- A task function that returns 3, or that raises.
abbrev environment : Result Text → Result (Option Bool) → Environment Memory
environment outcome found = record {
  resolve = λ path. found;
  call = λ path args kwargs context s. (outcome, s);
  task_started = λ result s. (ok tt, s);
  task_finished = λ result s. (ok tt, s);
  describe =
      λ e. record { exception_class_path = codes "builtins.ValueError"; traceback = codes "boom" };
}

abbrev returns : Environment Memory
returns = environment (ok (codes "3")) (ok (some false))
