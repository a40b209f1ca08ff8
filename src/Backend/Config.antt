-- ===== src/Backend/Config.antt =====
-- The settings a backend is built with, and the keys that it reaches (backends.py, __init__).
use django_tasks_redis.Prelude.{
  ℕ, ◌*◌, Option, none, some, List, [], ◌++◌, map, Text, if◌then◌else◌,
}
use django_tasks_redis.Prelude.Int.{ℤ, pos, pos_part, ltb_ℤ, sub_ℕ}
use django_tasks_redis.Task.{Status, successful, failed, status_index_order}
use django_tasks_redis.Utils.{
  get_result_key, get_results_index_key, get_delayed_key, get_status_index_key,
  get_priority_stream_key,
}

-- The options of RedisTaskBackend.__init__ that the modelled methods read.
pub record Config : Type 0 where
  pub alias : Text
  pub key_prefix : Text
  pub result_ttl : ℤ
  pub completed_task_ttl : ℤ
  -- REDIS_MAX_DELIVERIES, 0 for no cap
  pub max_deliveries : ℕ

-- Microseconds in a second.
abbrev pub usec : ℕ
usec = 1000000

module _ (self : Config) where
  abbrev pub result_key : Text → Text
  result_key task_id = get_result_key self.key_prefix self.alias task_id

  abbrev pub results_index_key : Text
  results_index_key = get_results_index_key self.key_prefix self.alias

  abbrev pub delayed_key : Text → Text
  delayed_key queue_name = get_delayed_key self.key_prefix self.alias queue_name

  abbrev pub stream_key : Text → Text → Text
  stream_key queue_name level = get_priority_stream_key self.key_prefix self.alias queue_name level

  abbrev pub index_key : Option Text → Status → Text
  index_key queue_name status = get_status_index_key self.key_prefix self.alias status queue_name

  abbrev pub scoped_keys : Option Text → List Text
  scoped_keys none = []
  scoped_keys (some q) = map (index_key (some q)) status_index_order

  -- _status_index_keys
  unfoldable pub status_index_keys : Option Text → List Text
  status_index_keys queue_name = map (index_key none) status_index_order ++ scoped_keys queue_name

  -- _status_index_ttl
  unfoldable pub status_index_ttl : Status → ℤ
  status_index_ttl successful = self.completed_task_ttl
  status_index_ttl failed = self.completed_task_ttl
  status_index_ttl _ = self.result_ttl

  -- _status_index_cutoff
  unfoldable pub status_index_cutoff : Status → ℕ → Option ℤ
  unfolding status_index_ttl
  status_index_cutoff status now =
      let ttl = status_index_ttl status in
      if ltb_ℤ (pos 0) ttl then some (sub_ℕ now (pos_part ttl * usec)) else none
