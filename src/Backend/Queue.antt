-- ===== src/Backend/Queue.antt =====
-- The producing side of the backend: enqueue, delete_task_data, reset_task_status, has_status_index
-- (backends.py), and the broker's requeue (brokers/streams.py).
pub mod Pipeline
pub mod Enqueued
pub mod Dispatched
pub mod Removed
use django_tasks_redis.Prelude.{
  ℕ, ◌≡◌, refl, ◌+◌, ◌-◌, ◌/◌, Bool, true, false, Option, none, some, List, [], ◌∷◌, ◌++◌, Text,
  codes, ltb, not, ◌&&◌, or_else, is_some, Result, ok, raise, Exec, ◌>>=◌, pure, if◌then◌else◌, map,
}
use django_tasks_redis.Prelude.Int.{ℤ, pos, pos_part, ltb_ℤ}
use django_tasks_redis.Task.{
  Field, Hash, Value, Status, text, state, level, time, ids, errors, ready, task_id, task_path,
  args_json, kwargs_json, status, priority, queue_name, backend_name, run_after, takes_context,
  enqueued_at, started_at, finished_at, last_attempted_at, return_value_json, errors_json,
  worker_ids_json, serialize_datetime, text_of, queue_or_default,
}
use django_tasks_redis.Redis.{
  Key, Command, hset, expire, delete, sadd, srem, zadd, zrem, xadd, set, xgroup_create, Server,
  execute, hget, hset_field, no_fields,
}
use django_tasks_redis.TaskResult.{TaskResult}
use django_tasks_redis.Utils.{priority_to_level, get_status_index_built_key}
use django_tasks_redis.Backend.Config.{
  Config, usec, result_key, results_index_key, delayed_key, stream_key, status_index_keys,
}
use django_tasks_redis.Backend.Index.{index_status}
use django_tasks_redis.Backend.Data.{data_to_result}
use django_tasks_redis.Backend.Entry.{stream_entry, entry_fields, stream_entry-eq-ok, priority_of}

-- The attributes of a django.tasks Task that enqueue reads, `path` being _get_task_path.
pub record Task : Type 0 where
  pub path : Text
  pub importance : ℤ
  pub queue : Text
  pub due : Option ℕ
  pub context : Bool

abbrev pub bool_text : Bool → Text
bool_text true = codes "true"
bool_text false = codes "false"

-- The `task_data` of enqueue.
unfoldable pub task_data_of : Config → Task → Text → Text → Text → ℕ → List (Field × Value)
unfolding serialize_datetime
task_data_of self task id args kwargs now =
    (task_id, text id)
    ∷ (task_path, text task.path)
    ∷ (args_json, text args)
    ∷ (kwargs_json, text kwargs)
    ∷ (status, state ready)
    ∷ (priority, level task.importance)
    ∷ (queue_name, text task.queue)
    ∷ (backend_name, text self.alias)
    ∷ (run_after, serialize_datetime task.due)
    ∷ (takes_context, text (bool_text task.context))
    ∷ (enqueued_at, serialize_datetime (some now))
    ∷ (started_at, text [])
    ∷ (finished_at, text [])
    ∷ (last_attempted_at, text [])
    ∷ (return_value_json, text [])
    ∷ (errors_json, errors [])
    ∷ (worker_ids_json, ids [])
    ∷ []

-- The hash that enqueue builds has every field of a stream entry.
pub stream_entry-task_data_of :
    (self : Config) (task : Task) (id args kwargs : Text) (now : ℕ)
    → let h : Hash = λ f. hset_field (task_data_of self task id args kwargs now) f none in
      stream_entry h ≡ ok (entry_fields h)
unfolding task_data_of
stream_entry-task_data_of self task id args kwargs now =
    stream_entry-eq-ok (λ f. hset_field (task_data_of self task id args kwargs now) f none) _ _ _ _
      refl refl refl refl

-- `task.run_after is not None and task.run_after > now`
abbrev pub delay_of : Option ℕ → ℕ → Option ℕ
delay_of none now = none
delay_of (some t) now = if ltb now t then some t else none

abbrev delay_seconds : Option ℕ → ℕ → ℕ
delay_seconds none now = 0
delay_seconds (some t) now = (t - now) / usec

module _ (self : Config) where
  pub expire_result : Text → Option ℕ → ℕ → List Command
  expire_result id delay now =
      if ltb_ℤ (pos 0) self.result_ttl
      then expire (result_key self id) (pos_part self.result_ttl + delay_seconds delay now) ∷ []
      else []

  -- A delayed task goes to the delayed set, any other to the stream of its priority. The hash is the
  -- one that enqueue has built, so that stream_entry returns (stream_entry-task_data_of).
  unfoldable pub queue_up : Task → Text → Hash → Option ℕ → List Command
  unfolding entry_fields
  queue_up task id task_data (some due) = zadd (delayed_key self task.queue) id due ∷ []
  queue_up task id task_data none =
      xadd (stream_key self task.queue (priority_to_level task.importance)) (entry_fields task_data)
      ∷ []

  -- The one transaction of enqueue.
  unfoldable pub enqueue_pipeline : Task → Text → Text → Text → ℕ → List Command
  unfolding expire_result queue_up
  enqueue_pipeline task id args kwargs now =
      let fields = task_data_of self task id args kwargs now in
      let delay = delay_of task.due now in
      hset (result_key self id) fields
      ∷ (expire_result id delay now
          ++ sadd (results_index_key self) id
            ∷ (index_status self id task.queue ready (or_else delay now) now
                ++ queue_up task id (λ f. hset_field fields f none) delay))

  unfoldable pub delete_pipeline : Text → Option Text → List Command
  delete_pipeline id queue =
      delete (result_key self id)
      ∷ srem (results_index_key self) id
      ∷ map (λ key. zrem key id) (status_index_keys self queue)

  -- The transaction of reset_task_status.
  unfoldable pub reset_pipeline : Text → Text → ℕ → List Command
  reset_pipeline id queue now =
      hset (result_key self id)
        ((status, state ready) ∷ (finished_at, text []) ∷ (errors_json, errors []) ∷ [])
      ∷ index_status self id queue ready now now

abbrev pub queue_text : Option Value → Option Text
queue_text none = none
queue_text (some v) = some (text_of v)

module _ {S : Type 0} (r : Server S) (self : Config) where
  -- has_status_index, with the answer remembered by the process before and after.
  -- Whether the marker of a built index exists, and whether a result was ever stored.
  index_settled : Bool → Bool → S → Bool × S
  index_settled true stored s = (true, s)
  index_settled false true s = (false, s)
  index_settled false false s =
      (true, r.apply (set (get_status_index_built_key self.key_prefix self.alias)) s)

  unfoldable pub has_status_index : Bool → S → Bool × S
  unfolding index_settled
  has_status_index true s = (true, s)
  has_status_index false s =
      index_settled (r.exists s (get_status_index_built_key self.key_prefix self.alias))
        (r.exists s (results_index_key self)) s

  ensure_group : Task → Option ℕ → S → S
  ensure_group task (some due) s = s
  ensure_group task none s =
      r.apply (xgroup_create (stream_key self task.queue (priority_to_level task.importance))) s

  -- `valid` is validate_task of Django and the normalisation of the arguments, `id` the new UUID.
  unfoldable pub enqueue : Bool → Task → Result (Text × Text) → Text → ℕ → Exec S TaskResult
  unfolding ensure_group
  enqueue built task (raise e) id now s = (raise e, s)
  enqueue built task (ok (args, kwargs)) id now s =
      let s1 = ensure_group task (delay_of task.due now) s in
      let (_, s2) = has_status_index built s1 in
      let fields = task_data_of self task id args kwargs now in
      (
        data_to_result self.alias (λ f. hset_field fields f none),
        execute r (enqueue_pipeline self task id args kwargs now) s2,
      )

  unfoldable pub delete_task_data : Text → S → Bool × S
  unfolding text_of
  delete_task_data id s =
      let queue = queue_text (hget r s (result_key self id) queue_name) in
      (is_some (r.hgetall s (result_key self id)), execute r (delete_pipeline self id queue) s)

  -- requeue: the group is created before the entry is built.
  requeue_at : Hash → Result ℤ → Exec S Unit
  requeue_at task_data (raise e) s = (raise e, s)
  requeue_at task_data (ok n) s =
      let key = stream_key self (queue_or_default (task_data queue_name)) (priority_to_level n) in
      let s1 = r.apply (xgroup_create key) s in
      elim (stream_entry task_data) [
        | raise e ↦ (raise e, s1)
        | ok fields ↦ (ok tt, r.apply (xadd key fields) s1)
      ]

  unfoldable pub requeue : Hash → Exec S Unit
  unfolding requeue_at
  requeue task_data s = requeue_at task_data (priority_of (task_data priority)) s

  reset_found : Text → Option Hash → ℕ → Exec S Bool
  unfolding reset_pipeline
  reset_found id none now s = (ok false, s)
  reset_found id (some task_data) now s =
      let s1 = execute r (reset_pipeline self id (queue_or_default (task_data queue_name)) now) s in
      (requeue task_data >>= λ done. pure true) s1

  unfoldable pub reset_task_status : Text → ℕ → Exec S Bool
  unfolding reset_found
  reset_task_status id now s = reset_found id (r.hgetall s (result_key self id)) now s
