-- ===== src/Backend/Rebuild.antt =====
-- rebuild_status_index (backends.py): every stored task is indexed under its status by the script
-- `_INDEX_TASK`, while workers keep running.
pub mod Indexed
use django_tasks_redis.Prelude.{
  ℕ, ◌+◌, Bool, true, false, Option, none, some, List, [], ◌∷◌, Text, Result, ok, raise, Exec,
  ◌>>=◌, pure, if◌then◌else◌,
}
use django_tasks_redis.Prelude.Checked.{◌>>=◌ as then_try}
use django_tasks_redis.Prelude.Int.{ℤ, pos, eqb_ℤ}
use django_tasks_redis.Task.{
  Hash, Value, Status, state, ready, running, successful, failed, status, queue_name, started_at,
  finished_at, last_attempted_at, queue_or_default,
}
use django_tasks_redis.Redis.{Server, set}
use django_tasks_redis.Utils.{get_status_index_built_key}
use django_tasks_redis.Backend.Config.{Config, result_key, status_index_keys, status_index_cutoff}
use django_tasks_redis.Backend.Scripts.{index_task_script}
use django_tasks_redis.Backend.Data.{datetime_of}
use django_tasks_redis.Backend.Counts.{waiting_since}

-- `a or b`, where `b` is read only if `a` is None.
abbrev or_read : Option ℕ → Result (Option ℕ) → Result (Option ℕ)
or_read (some t) m = ok (some t)
or_read none m = m

abbrev or_now : ℕ → Option ℕ → Result ℕ
or_now now none = ok now
or_now now (some t) = ok t

-- _status_since
unfoldable pub status_since : Hash → Status → ℕ → Result ℕ
status_since task_data ready now = then_try (waiting_since task_data) (or_now now)
status_since task_data running now =
    then_try
      (then_try (datetime_of (task_data last_attempted_at))
        (λ attempted. or_read attempted (datetime_of (task_data started_at))))
      (or_now now)
status_since task_data successful now = then_try (datetime_of (task_data finished_at)) (or_now now)
status_since task_data failed now = then_try (datetime_of (task_data finished_at)) (or_now now)

module _ {S : Type 0} (r : Server S) (self : Config) (now : ℕ) where
  -- The script of one task that was read with `st` as its status.
  unfoldable pub index_read : Text → Hash → Status → ℕ → S → ℤ × S
  index_read id task_data st since s =
      index_task_script r
        (result_key self id
          ∷ status_index_keys self (some (queue_or_default (task_data queue_name))))
        id st since (status_index_cutoff self st now) s

  -- `pipeline.execute().count(1)`, one reply at a time.
  abbrev counted : ℤ × S → ℕ × S
  counted (outcome, s) = (if eqb_ℤ outcome (pos 1) then 1 else 0, s)

  abbrev index_since : Text → Hash → Status → Result ℕ → Exec S ℕ
  index_since id task_data st (raise e) s = (raise e, s)
  index_since id task_data st (ok since) s =
      let (n, s') = counted (index_read id task_data st since s) in (ok n, s')

  -- The body of the loop; a status that the index does not track is skipped.
  index_stored : Text → Hash → Option Value → Exec S ℕ
  index_stored id task_data (some (state st)) s =
      index_since id task_data st (status_since task_data st now) s
  index_stored id task_data v s = (ok 0, s)

  index_each : List (Text × Hash) → ℕ → Exec S ℕ
  unfolding index_stored
  index_each [] indexed s = (ok indexed, s)
  index_each ((id, task_data) ∷ tasks) indexed s =
      (index_stored id task_data (task_data status) >>= λ n. index_each tasks (indexed + n)) s

  -- rebuild_status_index; `tasks` is what iter_task_data yields.
  unfoldable pub rebuild_status_index : List (Text × Hash) → Exec S ℕ
  unfolding index_each
  rebuild_status_index tasks = do
    indexed ← index_each tasks 0
    λ s. (ok indexed, r.apply (set (get_status_index_built_key self.key_prefix self.alias)) s)
