-- ===== src/Examples/Producers.antt =====
-- The theorems on enqueue, deletion and reset, at one task.
use django_tasks_redis.Prelude.{
  ok, raise, key_error, List, ℕ, ◌≡◌, refl, true, false, Option, none, some, [], ◌∷◌, ◌++◌, Text,
  codes, text_eq, text_eq_refl, if◌then◌else◌,
}
use django_tasks_redis.Prelude.Int.{pos}
use django_tasks_redis.Task.{
  Field, Hash, Value, Status, time, queue_or_default, ready, failed, state, text, errors, status,
  finished_at, errors_json,
}
use django_tasks_redis.Redis.{Key, hget, hset, hset_field}
use django_tasks_redis.Redis.Memory.{Memory, memory, empty, apply}
use django_tasks_redis.Utils.{priority_to_level}
use django_tasks_redis.Backend.Config.{
  result_key, results_index_key, delayed_key, stream_key, index_key,
}
use django_tasks_redis.Backend.Index.State.{IndexedAs}
use django_tasks_redis.Backend.Queue.{Task, delete_task_data, reset_task_status}
use django_tasks_redis.Backend.Entry.{entry_fields, stream_entry}
use django_tasks_redis.Backend.Queue.Enqueued.{after, submitted, task_hash, enqueue_stores}
use django_tasks_redis.Backend.Queue.Dispatched.{enqueue_delays, enqueue_queues}
use django_tasks_redis.Backend.Queue.Removed.{
  delete_task_data_removes, reset_task_status_requeues, reset_task_status_strands,
}
use django_tasks_redis.Examples.{config, id, queue, stored, stored_lem, hash_of}

abbrev pub task : Option ℕ → Task
task due = record {
  path = codes "app.tasks.send";
  importance = pos 5;
  queue = queue;
  due = due;
  context = false;
}

abbrev pub args : Text
args = codes "[1]"

abbrev pub kwargs : Text
kwargs = codes "{}"

abbrev pub enqueued : Option ℕ → Memory
enqueued due = after memory config (task due) id args kwargs 10 false empty

enqueue_stores_example :
    ((f : Field)
      → hget memory (enqueued none) (result_key config id) f
        ≡ some (submitted config (task none) id args kwargs 10 f))
    × (memory.is_member (enqueued none) (results_index_key config) id ≡ true)
    × IndexedAs memory config id queue ready 10 (enqueued none)
enqueue_stores_example = enqueue_stores memory config (task none) id args kwargs 10 false empty

enqueue_delays_example :
    (memory.zscore (enqueued (some 50)) (delayed_key config queue) id ≡ some 50)
    × ((k : Key) → memory.xrange (enqueued (some 50)) k ≡ memory.xrange empty k)
enqueue_delays_example =
    enqueue_delays memory config (task (some 50)) id args kwargs 10 false empty 50 refl

enqueue_queues_example :
    (i : ℕ) × ((k : Key)
      → memory.xrange (enqueued none) k ≡ (
          if text_eq (stream_key config queue (priority_to_level (pos 5))) k
          then memory.xrange empty k
            ++ record {
              message_id = i;
              fields = entry_fields (task_hash memory config (task none) id args kwargs 10);
            }
              ∷ []
          else memory.xrange empty k))
    × (memory.zscore (enqueued none) (delayed_key config queue) id
        ≡ memory.zscore empty (delayed_key config queue) id)
enqueue_queues_example = enqueue_queues memory config (task none) id args kwargs 10 false empty refl

delete_task_data_removes_example :
    let (deleted, gone) = delete_task_data memory config id (stored failed (text [])) in
    (deleted ≡ true)
    × (memory.hgetall gone (result_key config id) ≡ none)
    × (memory.is_member gone (results_index_key config) id ≡ false)
    × ((tu : Status)
        → (memory.zscore gone (index_key config none tu) id ≡ none)
          × (memory.zscore gone (index_key config (some queue) tu) id ≡ none))
delete_task_data_removes_example =
    delete_task_data_removes memory config id (stored failed (text [])) (hash_of failed (text []))
      queue (stored_lem failed (text [])) refl

reset_task_status_requeues_example :
    let before = stored failed (text []) in
    let (reset, again) = reset_task_status memory config id 20 before in
    (reset ≡ ok true)
    × ((f : Field)
        → hget memory again (result_key config id) f
          ≡ hset_field
              ((status, state ready) ∷ (finished_at, text []) ∷ (errors_json, errors []) ∷ [])
              f
              (hash_of failed (text []) f))
    × IndexedAs memory config id queue ready 20 again
    × (i : ℕ) × ((k : Key)
        → memory.xrange again k ≡ (
            if text_eq (stream_key config queue (priority_to_level (pos 5))) k
            then memory.xrange before k
              ++ record { message_id = i; fields = entry_fields (hash_of failed (text [])) } ∷ []
            else memory.xrange before k))
reset_task_status_requeues_example =
    reset_task_status_requeues memory config id (stored failed (text [])) (hash_of failed (text []))
      queue (text id) (text (codes "app.tasks.send")) (pos 5) 20 (stored_lem failed (text [])) refl
      refl refl refl

-- What is left of a task whose hash expired before it was recorded as FAILED.
abbrev remnant : List (Field × Value)
remnant = (status, state failed) ∷ (finished_at, time 15) ∷ (errors_json, errors []) ∷ []

abbrev remnant_hash : Hash
remnant_hash f = hset_field remnant f none

abbrev with_remnant : Memory
with_remnant = apply (hset (result_key config id) remnant) empty

remnant-read : memory.hgetall with_remnant (result_key config id) ≡ some remnant_hash
remnant-read = rw text_eq_refl

remnant-raises : stream_entry remnant_hash ≡ raise key_error
unfolding stream_entry
remnant-raises = refl

reset_task_status_strands_example :
    let (reset, again) = reset_task_status memory config id 20 with_remnant in
    (reset ≡ raise key_error)
    × (hget memory again (result_key config id) status ≡ some (state ready))
    × IndexedAs memory config id (codes "default") ready 20 again
    × ((k : Key) → memory.xrange again k ≡ memory.xrange with_remnant k)
unfolding queue_or_default
reset_task_status_strands_example =
    reset_task_status_strands memory config id with_remnant remnant_hash (pos 0) 20 key_error
      remnant-read refl remnant-raises
