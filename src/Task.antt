-- ===== src/Task.antt =====
-- The data of a stored task: the statuses and the fields of its Redis hash
-- (django_tasks_redis/backends.py, the `task_data` of `enqueue`).
-- A hash field holds text; the model keeps what the package encodes into it: `text []` is the empty
-- string, `time t` the ISO form of an instant, `ids` and `errors` the JSON of a list.
-- Instants count microseconds from the epoch.
use django_tasks_redis.Prelude.{
  ℕ, ◌≡◌, refl, ◌≢◌, Bool, true, false, Option, none, some, List, [], ◌∷◌, arith, ◌==◌, Text, codes,
  Result, ok, raise, value_error,
}
use django_tasks_redis.Prelude.Int.{ℤ}

-- django.tasks.base.TaskResultStatus
pub data Status : Type 0 where
  ready running successful failed : Status

abbrev pub status_code : Status → ℕ
status_code ready = 0
status_code running = 1
status_code successful = 2
status_code failed = 3

abbrev pub status_eq : Status → Status → Bool
status_eq a b = status_code a == status_code b

pub status_eq_refl : (a : Status) → status_eq a a ≡ true
status_eq_refl ready = refl
status_eq_refl _ = refl

pub status_eq_sound : (a b : Status) → status_eq a b ≡ true → a ≡ b
status_eq_sound a b h = ground arith

pub status_eq_ne : (a b : Status) → a ≢ b → status_eq a b ≡ false
status_eq_ne a b h = ground arith

-- The order of STATUS_INDEX_ORDER.
abbrev pub status_index_order : List Status
status_index_order = ready ∷ running ∷ successful ∷ failed ∷ []

pub data Field : Type 0 where
  task_id task_path args_json kwargs_json status priority queue_name backend_name run_after : Field
  takes_context enqueued_at started_at finished_at last_attempted_at return_value_json : Field
  errors_json worker_ids_json : Field

abbrev pub field_code : Field → ℕ
field_code task_id = 0
field_code task_path = 1
field_code args_json = 2
field_code kwargs_json = 3
field_code status = 4
field_code priority = 5
field_code queue_name = 6
field_code backend_name = 7
field_code run_after = 8
field_code takes_context = 9
field_code enqueued_at = 10
field_code started_at = 11
field_code finished_at = 12
field_code last_attempted_at = 13
field_code return_value_json = 14
field_code errors_json = 15
field_code worker_ids_json = 16

abbrev pub field_eq : Field → Field → Bool
field_eq a b = field_code a == field_code b

-- django.tasks.base.TaskError
pub record TaskError : Type 0 where
  pub exception_class_path : Text
  pub traceback : Text

pub data Value : Type 0 where
  text : Text → Value
  state : Status → Value
  level : ℤ → Value
  time : ℕ → Value
  ids : List Text → Value
  errors : List TaskError → Value

abbrev pub Hash : Type 0
Hash = Field → Option Value

-- `value == status`, the comparison of the scripts and of the broker.
abbrev pub has_status : Option Value → Status → Bool
has_status (some (state a)) b = status_eq a b
has_status _ b = false

-- serialize_datetime, deserialize_datetime: None is the empty string.
unfoldable pub serialize_datetime : Option ℕ → Value
serialize_datetime none = text []
serialize_datetime (some t) = time t

unfoldable pub deserialize_datetime : Value → Result (Option ℕ)
deserialize_datetime (text []) = ok none
deserialize_datetime (time t) = ok (some t)
deserialize_datetime _ = raise value_error

-- `deserialize_json(raw) or []` of a field that holds a list of worker ids.
unfoldable pub worker_ids_of : Option Value → List Text
worker_ids_of (some (ids l)) = l
worker_ids_of _ = []

-- `deserialize_json(task_data.get("errors_json", "[]")) or []`
unfoldable pub errors_of : Option Value → List TaskError
errors_of (some (errors l)) = l
errors_of _ = []

-- A field that is absent or empty: `value == false or value == ''` of the scripts.
abbrev pub is_blank : Option Value → Bool
is_blank none = true
is_blank (some (text [])) = true
is_blank _ = false

-- A field that holds plain text, such as the name of a queue.
unfoldable pub text_of : Value → Text
text_of (text q) = q
text_of _ = []

-- `task_data.get("queue_name", "default")`
unfoldable pub queue_or_default : Option Value → Text
unfolding text_of
queue_or_default none = codes "default"
queue_or_default (some v) = text_of v
