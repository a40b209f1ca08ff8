-- ===== src/Broker/Resolved.antt =====
-- What becomes of a delivered entry (brokers/streams.py, _resolve and _take).
use django_tasks_redis.Prelude.{
  ℕ, ◌≡◌, ◌≤◌, length-append, ◌>>=◌ as bind, Option-cases, sym, refl, ap, ◌∙◌, true, false, Option,
  none, some, List, [], ◌∷◌, Text, text_eq, text_eq_refl, length, leb, ok, arith, inl, inr,
  if◌then◌else◌,
}
use django_tasks_redis.Prelude.{bind-eq-ok, ok_inj}
use django_tasks_redis.Task.{
  Field, Hash, Value, text, ready, status, queue_name, run_after, has_status, serialize_datetime,
  deserialize_datetime, queue_or_default,
}
use django_tasks_redis.Redis.{
  Key, Message, zadd, xack, xdel, Server, execute, zscore-execute, without, without_pending, hget,
  hash_or_empty,
}
use django_tasks_redis.Utils.{get_delayed_key}
use django_tasks_redis.Backend.Config.{Config, result_key, delayed_key}
use django_tasks_redis.Broker.{
  BrokerMessage, future, id_of, id_text, ack, resolve, take_entries, take_all, add_message,
}

module _ {S : Type 0} (r : Server S) (self : Config) (stream : Key) (number now : ℕ)
    (f : Field × Value) (fs : List (Field × Value)) (s : S) where
  abbrev entry : Message
  entry = record { message_id = number; fields = f ∷ fs }

  abbrev pub delivered_as : BrokerMessage
  delivered_as = record { id = id_of (f ∷ fs); stream = stream; number = number; raw = f ∷ fs }

  abbrev key : Key
  key = result_key self (id_text (id_of (f ∷ fs)))

  -- The entry is out of the stream and no longer pending, and every other key is as it was.
  abbrev pub Acknowledged : S → Type 0
  Acknowledged after =
      ((k : Key)
        → r.xrange after k
          ≡ (if text_eq stream k then without number (r.xrange s k) else r.xrange s k))
      × ((k : Key)
          → r.xpending after k ≡ (
              if text_eq stream k then without_pending number (r.xpending s k) else r.xpending s k))
      × ((k : Key) → r.hgetall after k ≡ r.hgetall s k)

  acknowledges :
      (s' : S)
      → ((k : Key) → r.xrange s' k ≡ r.xrange s k)
      → ((k : Key) → r.xpending s' k ≡ r.xpending s k)
      → ((k : Key) → r.hgetall s' k ≡ r.hgetall s k)
      → Acknowledged (execute r (ack delivered_as) s')
  unfolding execute ack
  acknowledges s' streams pendings hashes = (
    λ k. rw (r.xrange-apply (xdel stream number), r.xrange-apply (xack stream number), streams k),
    λ k.
        rw (
          r.xpending-apply (xdel stream number),
          r.xpending-apply (xack stream number),
          pendings k,
        ),
    λ k. rw (r.hgetall-apply (xdel stream number), r.hgetall-apply (xack stream number), hashes k),
  )

  -- A message whose task is READY and due is handed out, and nothing is written: it stays pending.
  pub resolve_runs :
      (h : Hash) (t : Option ℕ)
      → r.hgetall s key ≡ some h
      → has_status (h status) ready ≡ true
      → h run_after ≡ some (serialize_datetime t)
      → future t now ≡ none
      → resolve r self stream entry now s ≡ (ok (some delivered_as), s)
  unfolding resolve deserialize_datetime serialize_datetime
  resolve_runs h none stored idle at due = rw (stored, idle, at)
  resolve_runs h (some t) stored idle at due = rw (stored, idle, at, due)

  -- A message whose task is stored with its queue, READY and not due, goes back to the delayed set of
  -- that queue, under its time, and its entry is acknowledged and deleted; no hash changes.
  pub resolve_delays :
      (h : Hash) (q : Text) (t due : ℕ)
      → r.hgetall s key ≡ some h
      → has_status (h status) ready ≡ true
      → h run_after ≡ some (serialize_datetime (some t))
      → future (some t) now ≡ some due
      → h queue_name ≡ some (text q)
      → let (found, after) = resolve r self stream entry now s in
        (found ≡ ok none)
        × (r.zscore after (delayed_key self q) (id_text (id_of (f ∷ fs))) ≡ some due)
        × Acknowledged after
  unfolding resolve deserialize_datetime serialize_datetime queue_or_default execute get_delayed_key
  resolve_delays h q t due stored idle at later queued =
      let back = zadd (delayed_key self q) (id_text (id_of (f ∷ fs))) due in
      rw (stored, idle, at, later, queued)
        (
          refl,
          rw (zscore-execute r (ack delivered_as), r.zscore-apply back, text_eq_refl, text_eq_refl),
          acknowledges (r.apply back s) (r.xrange-apply back s) (r.xpending-apply back s)
              (r.hgetall-apply back s),
        )

  -- A message whose task is gone or not READY is not handed out: its entry is acknowledged and
  -- deleted, and no score and no hash changes.
  pub resolve_drops :
      has_status (hget r s key status) ready ≡ false
      → let (found, after) = resolve r self stream entry now s in
        (found ≡ ok none)
        × ((k : Key) (m : Text) → r.zscore after k m ≡ r.zscore s k m)
        × Acknowledged after
  unfolding resolve ack
  resolve_drops dropped =
      let acked : Acknowledged (execute r (ack delivered_as) s) =
        acknowledges s (λ k. refl) (λ k. refl) (λ k. refl) in
      let quiet : (k : Key) (m : Text)
          → r.zscore (execute r (ack delivered_as) s) k m ≡ r.zscore s k m =
        λ k m. zscore-execute r (ack delivered_as) s k m in
      elim (Option-cases (r.hgetall s key)) [
        | inl gone ↦ rw gone (refl, quiet, acked)
        | inr (h, stored) ↦
            let busy : has_status (h status) ready ≡ false =
              ap (λ o. has_status (hash_or_empty o status) ready) (sym stored) ∙ dropped in
            rw (stored, busy) (refl, quiet, acked)
      ]

module _ {S : Type 0} (r : Server S) (self : Config) (max_messages now : ℕ) where
  -- A step keeps the bound, whatever it finds.
  add_message-bound :
      (messages : List BrokerMessage) (found : Option BrokerMessage)
      → leb max_messages (length messages) ≡ false
      → length (add_message messages found) ≤ max_messages
  add_message-bound messages none room = ground arith
  add_message-bound messages (some m) room = ground (arith, length-append messages (m ∷ []))

  take_entries-bound :
      (stream : Key) (entries : List Message) (messages : List BrokerMessage) (s : S)
      (taken : List BrokerMessage)
      → length messages ≤ max_messages
      → (take_entries r self stream max_messages now messages entries s).0 ≡ ok taken
      → length taken ≤ max_messages
  unfolding take_entries
  take_entries-bound stream [] messages s taken room e = rw (sym (ok_inj messages taken e)) room
  take_entries-bound stream (entry ∷ entries) messages s taken room e =
      elim (leb max_messages (length messages))
          as (λ b.
            leb max_messages (length messages) ≡ b
            → (if b
                then (ok messages, s)
                else (bind (resolve r self stream entry now)
                    (λ found.
                      take_entries r self stream max_messages now (add_message messages found)
                        entries)
                    s)).0
              ≡ ok taken
            → length taken ≤ max_messages) [
              | true ↦ λ full e. rw (sym (ok_inj messages taken e)) room
              | false ↦ λ free e.
                  let (found, _, e1) = bind-eq-ok (resolve r self stream entry now) _ s e in
                  take_entries-bound stream entries (add_message messages found) _ taken
                    (add_message-bound messages found free) e1
            ]
        refl e

  -- However many entries the streams delivered, if no hash raises, at most `max_messages` messages are
  -- handed out, those already held included.
  pub take_all_bounded :
      (delivered : Key → List Message) (streams : List Key) (messages : List BrokerMessage) (s : S)
      (taken : List BrokerMessage)
      → length messages ≤ max_messages
      → (take_all r self delivered max_messages now streams messages s).0 ≡ ok taken
      → length taken ≤ max_messages
  unfolding take_all
  take_all_bounded delivered [] messages s taken room e = rw (sym (ok_inj messages taken e)) room
  take_all_bounded delivered (stream ∷ streams) messages s taken room e =
      let (some_taken, e0, e1) =
        bind-eq-ok (take_entries r self stream max_messages now messages (delivered stream)) _ s
          e in
      take_all_bounded delivered streams some_taken _ taken
        (take_entries-bound stream (delivered stream) messages s some_taken room e0) e1
