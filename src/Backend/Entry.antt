-- ===== src/Backend/Entry.antt =====
-- What a stream entry carries (brokers/streams.py, stream_entry), and the priority that a hash holds.
use django_tasks_redis.Prelude.{
  ◌≡◌, Option, none, some, List, [], ◌∷◌, Result, ok, raise, value_error,
}
use django_tasks_redis.Prelude.Int.{ℤ, pos}
use django_tasks_redis.Prelude.Checked.{◌>>=◌}
use django_tasks_redis.Task.{
  Field, Hash, Value, text, level, task_id, task_path, priority, queue_name, enqueued_at,
}
use django_tasks_redis.Backend.Data.{required}

abbrev pub field_or : Option Value → Value
field_or none = text []
field_or (some v) = v

-- stream_entry; a field that is missing is a KeyError.
unfoldable pub stream_entry : Hash → Result (List (Field × Value))
stream_entry task_data = do
  id ← required (task_data task_id)
  path ← required (task_data task_path)
  importance ← required (task_data priority)
  queue ← required (task_data queue_name)
  ok (
      (task_id, id)
      ∷ (task_path, path)
      ∷ (priority, importance)
      ∷ (queue_name, queue)
      ∷ (enqueued_at, field_or (task_data enqueued_at))
      ∷ [])

-- The entry of a hash that has the fields which stream_entry asks for.
unfoldable pub entry_fields : Hash → List (Field × Value)
entry_fields task_data =
    (task_id, field_or (task_data task_id))
    ∷ (task_path, field_or (task_data task_path))
    ∷ (priority, field_or (task_data priority))
    ∷ (queue_name, field_or (task_data queue_name))
    ∷ (enqueued_at, field_or (task_data enqueued_at))
    ∷ []

pub stream_entry-eq-ok :
    (h : Hash) (id path importance queue : Value)
    → h task_id ≡ some id
    → h task_path ≡ some path
    → h priority ≡ some importance
    → h queue_name ≡ some queue
    → stream_entry h ≡ ok (entry_fields h)
unfolding stream_entry entry_fields
stream_entry-eq-ok h id path importance queue i p n q = rw (i, p, n, q)

-- int(task_data.get("priority", "0")), of a value as a ValueError where it is no number
abbrev pub priority_of : Option Value → Result ℤ
priority_of none = ok (pos 0)
priority_of (some (level n)) = ok n
priority_of (some _) = raise value_error
