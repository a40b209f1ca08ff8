-- ===== src/Examples/Messages.antt =====
-- The theorems on messages and the delayed set, at one stored task and one entry of its stream.
use django_tasks_redis.Prelude.{
  ◌≡◌, refl, true, false, none, some, [], ◌∷◌, ◌++◌, ok, codes, text_eq, text_eq_refl,
  if◌then◌else◌,
}
use django_tasks_redis.Task.{
  Hash, Value, Field, ready, running, failed, state, text, time, ids, status, task_id,
  worker_ids_json, errors_json, errors, errors_of, serialize_datetime, has_status, text_of,
  worker_ids_of,
}
use django_tasks_redis.Redis.{Key, hset_field, hget, hset, zadd, without, without_pending}
use django_tasks_redis.Redis.Memory.{Memory, memory, apply, empty}
use django_tasks_redis.Backend.Config.{result_key, delayed_key}
use django_tasks_redis.Backend.Index.State.{IndexedAs}
use django_tasks_redis.Backend.Finish.{abandoned_path}
use django_tasks_redis.Broker.{BrokerMessage, resolve, sweep_claimed, id_text, id_of}
use django_tasks_redis.Broker.Promoted.{promoters, promote_once}
use django_tasks_redis.Broker.Resolved.{Acknowledged, resolve_delays}
use django_tasks_redis.Broker.Swept.{sweep_hands_back, sweep_gives_up}
use django_tasks_redis.Examples.{config, id, queue, worker, stored, stored_lem, hash_of, fields_of}

abbrev stream : Key
stream = codes "s"

abbrev delayed : Key
delayed = delayed_key config queue

abbrev field : Field × Value
field = (task_id, text id)

abbrev waiting : Memory
waiting = apply (zadd delayed id 50) (stored ready (text []))

waits : memory.zscore waiting delayed id ≡ some 50
waits = rw (text_eq_refl, text_eq_refl)

idles : has_status (hget memory waiting (result_key config id) status) ready ≡ true
idles = rw text_eq_refl

promote_once_example :
    let after =
      promoters memory delayed (result_key config id) stream id ((field ∷ []) ∷ [] ∷ []) waiting in
    (i : _) × ((k : Key)
      → memory.xrange after k ≡ (
          if text_eq stream k
          then memory.xrange waiting k ++ record { message_id = i; fields = field ∷ [] } ∷ []
          else memory.xrange waiting k))
    × (memory.zscore after delayed id ≡ none)
promote_once_example =
    promote_once memory delayed (result_key config id) stream id (field ∷ []) ([] ∷ []) waiting 50
      waits idles

resolve_delays_example :
    let (found, after) =
      resolve memory config stream
        (record { message_id = 7; fields = field ∷ [] })
        40
        (stored ready (time 50)) in
    (found ≡ ok none)
    × (memory.zscore after (delayed_key config queue) (id_text (id_of (field ∷ []))) ≡ some 50)
    × Acknowledged memory config stream 7 40 field [] (stored ready (time 50)) after
unfolding serialize_datetime text_of
resolve_delays_example =
    resolve_delays memory config stream 7 40 field [] (stored ready (time 50))
      (hash_of ready (time 50)) queue 50 50 (stored_lem ready (time 50)) refl refl refl refl

sweep_hands_back_example :
    let before = stored running (text []) in
    let message : BrokerMessage = record { id = some id; stream = stream; number = 7; raw = [] } in
    let (claimed, after) = sweep_claimed memory config message 9 3 worker 60 61 before in
    (claimed ≡ true)
    × (hget memory after (result_key config id) status ≡ some (state ready))
    × IndexedAs memory config id queue ready 60 after
    × ((k : Key) → memory.xpending after k ≡ memory.xpending before k)
unfolding worker_ids_of
sweep_hands_back_example =
    sweep_hands_back memory config id stream 7 3 9 worker 60 61 (stored running (text []))
      (hash_of running (text [])) queue (stored_lem running (text [])) refl refl refl

-- The same task, started once, where one start is the most.
abbrev started_once : Hash
started_once f =
    hset_field (fields_of running (text []) ++ (worker_ids_json, ids (worker ∷ [])) ∷ []) f none

abbrev stale : Memory
stale =
    apply
      (hset (result_key config id)
        (fields_of running (text []) ++ (worker_ids_json, ids (worker ∷ [])) ∷ []))
      empty

stale_lem : memory.hgetall stale (result_key config id) ≡ some started_once
stale_lem = rw text_eq_refl

sweep_gives_up_example :
    let message : BrokerMessage = record { id = some id; stream = stream; number = 7; raw = [] } in
    let (claimed, after) = sweep_claimed memory config message 1 1 worker 60 61 stale in
    let key = result_key config id in
    (claimed ≡ false)
    × (hget memory after key status ≡ some (state failed))
    × (hget memory after key errors_json
        ≡ some (
            errors (
              errors_of (some (errors []))
              ++ record { exception_class_path = abandoned_path; traceback = worker } ∷ [])))
    × IndexedAs memory config id queue failed 61 after
    × (memory.xrange after stream ≡ without 7 (memory.xrange stale stream))
    × (memory.xpending after stream ≡ without_pending 7 (memory.xpending stale stream))
unfolding worker_ids_of
sweep_gives_up_example =
    sweep_gives_up memory config id stream 7 1 1 worker 60 61 stale started_once queue stale_lem
      refl (state running) refl refl refl refl
