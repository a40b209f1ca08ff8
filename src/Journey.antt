-- ===== src/Journey.antt =====
-- The way of a task through the parts: from enqueue (backends.py) by the broker (brokers/streams.py) to
-- the claim of a worker.
use django_tasks_redis.Prelude.{
  ℕ, ◌≤◌, ◌≡◌, refl, sym, ap, ◌∙◌, Bool, true, false, Option, none, some, [], ◌∷◌, ◌++◌, Text,
  text_eq_refl, ltb, arith, Bool-cases, inl, inr, ok,
}
use django_tasks_redis.Task.{ready, state, text_of}
use django_tasks_redis.Redis.{Key, Server, Message}
use django_tasks_redis.Utils.{priority_to_level}
use django_tasks_redis.Backend.Config.{Config, stream_key}
use django_tasks_redis.Backend.Claim.{claim_task}
use django_tasks_redis.Backend.Claim.Outcome.{claim_task_lem}
use django_tasks_redis.Backend.Queue.{Task, task_data_of, delay_of}
use django_tasks_redis.Backend.Entry.{entry_fields}
use django_tasks_redis.Backend.Queue.Enqueued.{delay, after, task_hash, hgetall-after}
use django_tasks_redis.Backend.Queue.Dispatched.{enqueue_queues}
use django_tasks_redis.Broker.{BrokerMessage, resolve, future}
use django_tasks_redis.Broker.Resolved.{resolve_runs}

-- What is due stays due.
future_later :
    (due : Option ℕ) (now later : ℕ)
    → now ≤ later
    → delay_of due now ≡ none
    → future due later ≡ none
future_later none now later passed soon = refl
future_later (some t) now later passed soon = elim (Bool-cases (ltb now t)) [
  | inl waits ↦ let delayed : some t ≡ none = sym (rw waits refl) ∙ soon in cc
  | inr due ↦ let past : ltb later t ≡ false = ground (arith, passed, due) in rw past refl
]

module _ {S : Type 0} (r : Server S) (self : Config) (task : Task) (id args kwargs : Text) (now : ℕ)
    (built : Bool) (s : S) where
  abbrev pub stored : S
  stored = after r self task id args kwargs now built s

  abbrev pub its_stream : Key
  its_stream = stream_key self task.queue (priority_to_level task.importance)

  abbrev pub entry_of : ℕ → Message
  entry_of i = record {
    message_id = i;
    fields = entry_fields (task_hash r self task id args kwargs now);
  }

  abbrev pub message_of : ℕ → BrokerMessage
  message_of i = record { id = some id; stream = its_stream; number = i; raw = (entry_of i).fields }

  -- A task that is enqueued with no run_after in the future reaches a worker: its stream ends with an
  -- entry for it; whenever the broker is handed this entry, it gives a message for the task and writes
  -- nothing; and the worker that claims the task by this message wins it.
  pub enqueue_reaches_worker :
      (later : ℕ) (worker : Option Text)
      → now ≤ later
      → delay r self task id args kwargs now ≡ none
      → (i : ℕ) × (r.xrange stored its_stream ≡ r.xrange s its_stream ++ entry_of i ∷ [])
        × (resolve r self its_stream (entry_of i) later stored ≡ (ok (some (message_of i)), stored))
        × ((claim_task r self id worker none later stored).0 ≡ ok true)
  unfolding task_data_of entry_fields text_of
  enqueue_reaches_worker later worker passed soon =
      let (i, streams, _) = enqueue_queues r self task id args kwargs now built s soon in
      let kept = hgetall-after r self task id args kwargs now built s in
      (
        i,
        streams its_stream ∙ rw text_eq_refl refl,
        resolve_runs r self its_stream i later _ _ stored (task_hash r self task id args kwargs now)
            task.due kept refl refl (future_later task.due now later passed soon),
        ap (λ out. out.0)
            (claim_task_lem r self id later stored (task_hash r self task id args kwargs now)
              task.queue (state ready) worker none kept refl refl),
      )
