-- ===== src/Utils.antt =====
-- django_tasks_redis/utils.py: the names of the Redis keys, and the priority levels.
pub mod Keys
use django_tasks_redis.Prelude.{
  ℕ, Option, none, some, List, ◌∷◌, [], ◌++◌, Text, codes, if◌then◌else◌,
}
use django_tasks_redis.Prelude.Int.{ℤ, pos, ltb_ℤ}
use django_tasks_redis.Task.{Status, ready, running, successful, failed}

-- str(status)
abbrev pub status_text : Status → Text
status_text ready = codes "READY"
status_text running = codes "RUNNING"
status_text successful = codes "SUCCESSFUL"
status_text failed = codes "FAILED"

module _ (key_prefix backend_name : Text) where
  -- f"{key_prefix}:{backend_name}:{rest}"
  abbrev pub scoped : Text → Text
  scoped rest = key_prefix ++ b':' ∷ (backend_name ++ b':' ∷ rest)

  unfoldable pub get_stream_key : Text → Text
  get_stream_key queue_name = scoped (queue_name ++ codes ":stream")

  unfoldable pub get_priority_stream_key : Text → Text → Text
  get_priority_stream_key queue_name priority_level =
      scoped (queue_name ++ (codes ":stream:" ++ priority_level))

  unfoldable pub get_result_key : Text → Text
  get_result_key task_id = scoped (codes "result:" ++ task_id)

  unfoldable pub get_delayed_key : Text → Text
  get_delayed_key queue_name = scoped (queue_name ++ codes ":delayed")

  unfoldable pub get_results_index_key : Text
  get_results_index_key = scoped (codes "results_index")

  unfoldable pub get_status_index_key : Status → Option Text → Text
  get_status_index_key status none = scoped (codes "status_index:" ++ status_text status)
  get_status_index_key status (some queue_name) =
      scoped (queue_name ++ (codes ":status_index:" ++ status_text status))

  unfoldable pub get_status_index_built_key : Text
  get_status_index_built_key = scoped (codes "status_index_built")

abbrev pub high : Text
high = codes "high"

abbrev pub normal : Text
normal = codes "normal"

abbrev pub low : Text
low = codes "low"

unfoldable pub priority_to_level : ℤ → Text
priority_to_level priority =
    if ltb_ℤ (pos 0) priority then high else if ltb_ℤ priority (pos 0) then low else normal
