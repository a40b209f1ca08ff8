-- ===== src/Backend/Data.antt =====
-- _data_to_result (backends.py): a stored hash as a TaskResult, with the exceptions of a partial hash.
use django_tasks_redis.Prelude.{
  ℕ, Option, none, some, ◌∷◌, Text, codes, Result, ok, raise, key_error, value_error,
}
use django_tasks_redis.Prelude.Checked.{◌>>=◌}
use django_tasks_redis.Task.{
  Hash, Status, Value, state, text, task_id, status, enqueued_at, started_at, finished_at,
  last_attempted_at, args_json, kwargs_json, backend_name, errors_json, worker_ids_json,
  return_value_json, deserialize_datetime, text_of, errors_of, worker_ids_of,
}
use django_tasks_redis.TaskResult.{TaskResult}

-- task_data[field]
abbrev pub required : Option Value → Result Value
required none = raise key_error
required (some v) = ok v

-- TaskResultStatus(value)
abbrev pub status_of : Value → Result Status
status_of (state st) = ok st
status_of _ = raise value_error

-- deserialize_datetime(task_data.get(field, ""))
abbrev pub datetime_of : Option Value → Result (Option ℕ)
datetime_of none = ok none
datetime_of (some v) = deserialize_datetime v

abbrev text_or : Option Value → Text → Text
text_or none d = d
text_or (some v) d = text_of v

-- A return value is read back if the field is not empty.
abbrev return_value_of : Option Value → Option Text
return_value_of (some (text (c ∷ cs))) = some (c ∷ cs)
return_value_of _ = none

unfoldable pub data_to_result : Text → Hash → Result TaskResult
unfolding deserialize_datetime text_of
data_to_result alias task_data = do
  id ← required (task_data task_id)
  raw ← required (task_data status)
  st ← status_of raw
  enqueued ← datetime_of (task_data enqueued_at)
  started ← datetime_of (task_data started_at)
  finished ← datetime_of (task_data finished_at)
  attempted ← datetime_of (task_data last_attempted_at)
  ok (record {
    id = text_of id;
    status = st;
    enqueued_at = enqueued;
    started_at = started;
    finished_at = finished;
    last_attempted_at = attempted;
    args = text_or (task_data args_json) (codes "[]");
    kwargs = text_or (task_data kwargs_json) (codes "{}");
    backend = text_or (task_data backend_name) alias;
    errors = errors_of (task_data errors_json);
    worker_ids = worker_ids_of (task_data worker_ids_json);
    return_value = return_value_of (task_data return_value_json);
  })
