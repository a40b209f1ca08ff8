-- ===== src/Backend/Queue/Dispatched.antt =====
-- enqueue gives a task exactly one way to a worker: its stream, or the delayed set.
use django_tasks_redis.Prelude.{
  ℕ, ◌≡◌, ◌∙◌, ap, Bool, none, some, [], ◌∷◌, ◌++◌, Text, text_eq, text_eq_refl, if◌then◌else◌,
}
use django_tasks_redis.Redis.{Key, Server}
use django_tasks_redis.Utils.{priority_to_level}
use django_tasks_redis.Backend.Config.{Config, delayed_key, stream_key}
use django_tasks_redis.Backend.Queue.{Task, queue_up}
use django_tasks_redis.Backend.Entry.{entry_fields}
use django_tasks_redis.Redis.{execute}
use django_tasks_redis.Backend.Queue.Enqueued.{
  after, delay, task_hash, xrange-enqueued, zscore-enqueued,
}

module _ {S : Type 0} (r : Server S) (self : Config) (task : Task) (id args kwargs : Text) (now : ℕ)
    (built : Bool) (s : S) where
  abbrev stored : S
  stored = after r self task id args kwargs now built s

  -- A task whose run_after is in the future waits in the delayed set, scored by that time, and no
  -- stream changes.
  pub enqueue_delays :
      (due : ℕ)
      → delay r self task id args kwargs now ≡ some due
      → (r.zscore stored (delayed_key self task.queue) id ≡ some due)
        × ((k : Key) → r.xrange stored k ≡ r.xrange s k)
  unfolding queue_up execute
  enqueue_delays due later =
      let (s0, ends, streams) = xrange-enqueued r self task id args kwargs now built s in
      (
        rw (
          zscore-enqueued r self task id args kwargs now built s id,
          later,
          text_eq_refl,
          text_eq_refl,
        ),
        λ k.
            ends k
            ∙ ap
                (λ d.
                  r.xrange
                    (execute r (queue_up self task id (task_hash r self task id args kwargs now) d)
                      s0)
                    k)
                later
            ∙ r.xrange-apply _ s0 k
            ∙ streams k,
      )

  -- A task with no run_after in the future is appended to the stream of its priority, under an id that
  -- the server gives, and to no other stream; the delayed set keeps what it held for the task.
  pub enqueue_queues :
      delay r self task id args kwargs now ≡ none
      → (i : ℕ) × ((k : Key)
          → r.xrange stored k ≡ (
              if text_eq (stream_key self task.queue (priority_to_level task.importance)) k
              then r.xrange s k
                ++ record {
                  message_id = i;
                  fields = entry_fields (task_hash r self task id args kwargs now);
                }
                  ∷ []
              else r.xrange s k))
        × (r.zscore stored (delayed_key self task.queue) id
            ≡ r.zscore s (delayed_key self task.queue) id)
  unfolding queue_up execute
  enqueue_queues soon =
      let (s0, ends, streams) = xrange-enqueued r self task id args kwargs now built s in
      (
        r.next_id s0,
        λ k.
            ends k
            ∙ ap
                (λ d.
                  r.xrange
                    (execute r (queue_up self task id (task_hash r self task id args kwargs now) d)
                      s0)
                    k)
                soon
            ∙ r.xrange-apply _ s0 k
            ∙ rw (streams k),
        rw (zscore-enqueued r self task id args kwargs now built s id, soon),
      )
