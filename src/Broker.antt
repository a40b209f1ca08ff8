-- ===== src/Broker.antt =====
-- The Redis Streams broker (brokers/streams.py): the delayed set, the reading of messages, their
-- acknowledgement, and what a sweep does to a message that it claimed.
pub mod Promoted
pub mod Resolved
pub mod Swept
pub mod Receive
pub mod Recovery
use django_tasks_redis.Prelude.{
  ℕ, ◌+◌, Bool, true, false, not, ◌&&◌, Option, none, some, List, [], ◌∷◌, ◌++◌, Text, codes, leb,
  ltb, length, is_some, Result, ok, raise, Exec, ◌>>=◌, ◌>>◌, pure, if◌then◌else◌, ◌==◌,
}
use django_tasks_redis.Prelude.Int.{ℤ, pos}
use django_tasks_redis.Task.{
  Field, Hash, Value, Status, text, ready, running, task_id, priority, status, queue_name,
  run_after, worker_ids_json, has_status, text_of, queue_or_default, worker_ids_of,
}
use django_tasks_redis.Redis.{
  Key, Command, Message, zadd, zrem, xadd, xack, xdel, xgroup_create, Server, execute, hget,
  hset_field,
}
use django_tasks_redis.Utils.{priority_to_level}
use django_tasks_redis.Backend.Config.{Config, result_key, delayed_key, stream_key}
use django_tasks_redis.Backend.Claim.{transition_task_status}
use django_tasks_redis.Backend.Data.{datetime_of}
use django_tasks_redis.Backend.Finish.{mark_task_failed}
use django_tasks_redis.Backend.Entry.{stream_entry, priority_of}

-- brokers/base.py, with the handle of a stream message.
pub record BrokerMessage : Type 0 where
  pub id : Option Text
  pub stream : Key
  pub number : ℕ
  pub raw : List (Field × Value)

-- `data.get("task_id")` of an entry.
abbrev pub id_of : List (Field × Value) → Option Text
id_of fields = elim (hset_field fields task_id none) [ none ↦ none | some v ↦ some (text_of v) ]

-- The id in the name of a key; None is written out.
abbrev pub id_text : Option Text → Text
id_text none = codes "None"
id_text (some id) = id

-- `{**task_data, "queue_name": qname}`
abbrev pub with_queue : Hash → Text → Hash
with_queue h q f = hset_field ((queue_name, text q) ∷ []) f (h f)

-- `run_after and run_after > timezone.now()`
abbrev pub future : Option ℕ → ℕ → Option ℕ
future none now = none
future (some t) now = if ltb now t then some t else none

abbrev pub add_message : List BrokerMessage → Option BrokerMessage → List BrokerMessage
add_message messages none = messages
add_message messages (some m) = messages ++ m ∷ []

-- ack
unfoldable pub ack : BrokerMessage → List Command
ack message = xack message.stream message.number ∷ xdel message.stream message.number ∷ []

module _ {S : Type 0} (r : Server S) where
  -- `_PROMOTE_DELAYED_TASK`: ZREM tells whether the member was there.
  unfoldable pub promote_script : Key → Key → Key → Text → Status → List (Field × Value) → S → ℤ × S
  promote_script delayed result stream id expected fields s =
      let s1 = r.apply (zrem delayed id) s in
      if is_some (r.zscore s delayed id)
      then if has_status (hget r s1 result status) expected
        then (pos 1, r.apply (xadd stream fields) s1)
        else (pos 0, s1)
      else (pos 0, s1)

  module _ (self : Config) where
    -- The stream and its group, the entry, and the script.
    promote_at : Text → Text → Hash → Result ℤ → Exec S Unit
    unfolding promote_script
    promote_at qname id task_data (raise e) s = (raise e, s)
    promote_at qname id task_data (ok n) s =
        let stream = stream_key self qname (priority_to_level n) in
        let s1 = r.apply (xgroup_create stream) s in
        elim (stream_entry (with_queue task_data qname)) [
          | raise e ↦ (raise e, s1)
          | ok fields ↦ (
            ok tt,
            (promote_script (delayed_key self qname) (result_key self id) stream id ready fields
                s1).1,
          )
        ]

    promote_found : Text → Text → Option Hash → Exec S Unit
    unfolding promote_at
    promote_found qname id none s = (ok tt, r.apply (zrem (delayed_key self qname) id) s)
    promote_found qname id (some task_data) s =
        promote_at qname id task_data (priority_of (task_data priority)) s

    -- The body of the loop over the due members of the delayed set of a queue.
    unfoldable pub promote_task : Text → Text → Exec S Unit
    unfolding promote_found
    promote_task qname id s = promote_found qname id (r.hgetall s (result_key self id)) s

    promote_each : Text → List Text → Exec S Unit
    promote_each qname [] s = (ok tt, s)
    promote_each qname (id ∷ ids) s = (promote_task qname id >>= λ done. promote_each qname ids) s

    -- promote_delayed_tasks; `due` is ZRANGEBYSCORE of a delayed set up to the present time.
    unfoldable pub promote_delayed_tasks : (S → Key → List Text) → List Text → Exec S Unit
    unfolding promote_each
    promote_delayed_tasks due [] s = (ok tt, s)
    promote_delayed_tasks due (qname ∷ queues) s =
        (promote_each qname (due s (delayed_key self qname)) >>= λ done.
        promote_delayed_tasks due queues)
          s

    -- A READY task that was delivered: run it, or put it back to the delayed set.
    resolve_due : BrokerMessage → Hash → Option ℕ → S → Option BrokerMessage × S
    unfolding ack
    resolve_due message task_data none s = (some message, s)
    resolve_due message task_data (some due) s = (
      none,
      execute r
          (zadd (delayed_key self (queue_or_default (task_data queue_name))) (id_text message.id)
              due
            ∷ ack message)
          s,
    )

    resolve_ready : BrokerMessage → Hash → ℕ → Result (Option ℕ) → Exec S (Option BrokerMessage)
    unfolding resolve_due
    resolve_ready message task_data now (raise e) s = (raise e, s)
    resolve_ready message task_data now (ok t) s =
        let (found, s') = resolve_due message task_data (future t now) s in (ok found, s')

    resolve_stored : BrokerMessage → ℕ → Option Hash → Exec S (Option BrokerMessage)
    unfolding resolve_ready ack
    resolve_stored message now none s = (ok none, execute r (ack message) s)
    resolve_stored message now (some task_data) s =
        if has_status (task_data status) ready
        then resolve_ready message task_data now (datetime_of (task_data run_after)) s
        else (ok none, execute r (ack message) s)

    -- _resolve; an entry that is gone from the stream comes with no fields.
    unfoldable pub resolve : Key → Message → ℕ → Exec S (Option BrokerMessage)
    unfolding resolve_stored
    resolve stream entry now s =
        let message : BrokerMessage = record {
          id = id_of entry.fields;
          stream = stream;
          number = entry.message_id;
          raw = entry.fields;
        } in
        elim entry.fields [
          | [] ↦ (ok none, r.apply (xack stream entry.message_id) s)
          | f ∷ fs ↦
              resolve_stored message now
                (r.hgetall s (result_key self (id_text (id_of entry.fields)))) s
        ]

    -- The inner loop of _take, over the entries that one stream delivered.
    unfoldable pub take_entries :
        Key → ℕ → ℕ → List BrokerMessage → List Message → Exec S (List BrokerMessage)
    take_entries stream max_messages now messages [] s = (ok messages, s)
    take_entries stream max_messages now messages (entry ∷ entries) s =
        let rest : Option BrokerMessage → Exec S (List BrokerMessage) =
          λ found. take_entries stream max_messages now (add_message messages found) entries in
        if leb max_messages (length messages)
        then (ok messages, s)
        else (resolve stream entry now >>= rest) s

    -- _take, over the streams in priority order.
    unfoldable pub take_all :
        (Key → List Message) → ℕ → ℕ → List Key → List BrokerMessage → Exec S (List BrokerMessage)
    take_all delivered max_messages now [] messages = pure messages
    take_all delivered max_messages now (stream ∷ streams) messages = do
      taken ← take_entries stream max_messages now messages (delivered stream)
      take_all delivered max_messages now streams taken

    -- _release_interrupted_task
    unfoldable pub release_interrupted_task : BrokerMessage → ℕ → S → S
    release_interrupted_task message now s = elim message.id [
      | none ↦ s
      | some id ↦ (transition_task_status r self id ready (running ∷ []) now s).1
    ]

    abandon_started : BrokerMessage → Text → ℕ → Text → ℕ → ℕ → S → Bool × S
    unfolding ack
    abandon_started message id max_deliveries reason moved_at recorded_at s =
        if ltb (length (worker_ids_of (hget r s (result_key self id) worker_ids_json)))
          max_deliveries
        then (false, s)
        else (
          true,
          execute r (ack message) (mark_task_failed r self id reason moved_at recorded_at s).1,
        )

    -- _abandon; `reason` is the text that names the number of attempts.
    unfoldable pub abandon_message : BrokerMessage → ℕ → Text → ℕ → ℕ → S → Bool × S
    unfolding abandon_started
    abandon_message message max_deliveries reason moved_at recorded_at s = elim message.id [
      | none ↦ (true, r.apply (xack message.stream message.number) s)
      | some id ↦ abandon_started message id max_deliveries reason moved_at recorded_at s
    ]

    -- What a sweep does to a message that XCLAIM gave it: whether it counts as claimed.
    unfoldable pub sweep_claimed : BrokerMessage → ℕ → ℕ → Text → ℕ → ℕ → S → Bool × S
    sweep_claimed message times_delivered max_deliveries reason moved_at recorded_at s =
        let (abandoned, s1) =
          abandon_message message max_deliveries reason moved_at recorded_at s in
        if ltb 0 max_deliveries && leb max_deliveries times_delivered
        then if abandoned then (false, s1) else (true, release_interrupted_task message moved_at s1)
        else (true, release_interrupted_task message moved_at s)
