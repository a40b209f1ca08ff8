-- ===== src/Broker/Swept.antt =====
-- What a sweep does to a message that a dead consumer held (brokers/streams.py, _abandon and
-- _release_interrupted_task).
use django_tasks_redis.Prelude.{
  ℕ, ◌≡◌, refl, ap, ◌∙◌, Bool, true, false, ◌&&◌, some, [], ◌∷◌, ◌++◌, Text, length, leb, ltb, any,
  Bool-cases, inl, inr, text_eq_refl,
}
use django_tasks_redis.Task.{
  Hash, Value, state, text, errors, ready, running, failed, status, queue_name, worker_ids_json,
  errors_json, has_status, worker_ids_of, errors_of,
}
use django_tasks_redis.Redis.{
  xpending-execute, Key, Server, xack, xdel, execute, hget, without, without_pending,
}
use django_tasks_redis.Backend.Config.{Config, result_key}
use django_tasks_redis.Backend.Index.Effect.{leaves_streams-index_status}
use django_tasks_redis.Backend.Index.State.{IndexedAs, write-IndexedAs, hgetall-write}
use django_tasks_redis.Backend.Claim.{transition_task_status}
use django_tasks_redis.Backend.Claim.Outcome.{moved_store, transition_task_status_lem}
use django_tasks_redis.Backend.Finish.{mark_task_failed, abandoned_path}
use django_tasks_redis.Backend.Finish.Failed.{mark_task_failed_quiet, mark_task_failed_records}
use django_tasks_redis.Broker.{
  BrokerMessage, ack, abandon_message, sweep_claimed, release_interrupted_task,
}

module _ {S : Type 0} (r : Server S) (self : Config) (id : Text) (stream : Key)
    (number max_deliveries times_delivered : ℕ) (reason : Text) (moved_at recorded_at : ℕ) (s : S)
    (h : Hash) (q : Text) (stored : r.hgetall s (result_key self id) ≡ some h)
    (queued : h queue_name ≡ some (text q)) where
  abbrev message : BrokerMessage
  message = record { id = some id; stream = stream; number = number; raw = [] }

  abbrev sweep : Bool × S
  sweep = sweep_claimed r self message times_delivered max_deliveries reason moved_at recorded_at s

  -- Starts are counted, not deliveries: a task stored with its queue that was left RUNNING and was
  -- started fewer times than the cap is READY again, in the hash and in the index, whatever the number
  -- of deliveries, and its message stays pending.
  pub sweep_hands_back :
      h status ≡ some (state running)
      → ltb (length (worker_ids_of (h worker_ids_json))) max_deliveries ≡ true
      → let (claimed, after) = sweep in
        (claimed ≡ true)
        × (hget r after (result_key self id) status ≡ some (state ready))
        × IndexedAs r self id q ready moved_at after
        × ((k : Key) → r.xpending after k ≡ r.xpending s k)
  unfolding sweep_claimed abandon_message release_interrupted_task
  sweep_hands_back current young =
      let moved =
        transition_task_status_lem r self id moved_at s h q (state running) ready (running ∷ [])
          stored queued current in
      let released : (transition_task_status r self id ready (running ∷ []) moved_at s).1
          ≡ moved_store r self id moved_at s q ready =
        ap (λ p. p.1) moved in
      let handed : sweep ≡ (true, moved_store r self id moved_at s q ready) =
        elim (Bool-cases (ltb 0 max_deliveries && leb max_deliveries times_delivered)) [
          | inl e ↦ rw (e, stored, young, released)
          | inr e ↦ rw (e, released)
        ] in
      rw handed (
        refl,
        rw (hgetall-write, text_eq_refl),
        write-IndexedAs r self _ _ id q ready moved_at moved_at s,
        λ k.
            xpending-execute r _ s k
              (leaves_streams-index_status self id q ready moved_at moved_at),
      )

  -- A READY or RUNNING task, stored with its queue, that was started as often as the cap allows, and
  -- whose message was delivered as often, is given up: FAILED with the reason behind its errors, in
  -- the hash and in the index, its entry is gone from the stream and from the pending ones, and it
  -- does not count as claimed.
  pub sweep_gives_up :
      (v : Value)
      → h status ≡ some v
      → any (has_status (some v)) (ready ∷ running ∷ []) ≡ true
      → ltb (length (worker_ids_of (h worker_ids_json))) max_deliveries ≡ false
      → ltb 0 max_deliveries && leb max_deliveries times_delivered ≡ true
      → let (claimed, after) = sweep in
        let key = result_key self id in
        (claimed ≡ false)
        × (hget r after key status ≡ some (state failed))
        × (hget r after key errors_json
            ≡ some (
                errors (
                  errors_of (h errors_json)
                  ++ record { exception_class_path = abandoned_path; traceback = reason } ∷ [])))
        × IndexedAs r self id q failed recorded_at after
        × (r.xrange after stream ≡ without number (r.xrange s stream))
        × (r.xpending after stream ≡ without_pending number (r.xpending s stream))
  unfolding sweep_claimed abandon_message ack execute
  sweep_gives_up v current open_ old capped =
      let given =
        mark_task_failed_records r self id reason moved_at recorded_at s h q stored queued v current
          open_ in
      let quiet =
        mark_task_failed_quiet r self id reason moved_at recorded_at s h q stored queued v current
          open_ in
      let s1 = (mark_task_failed r self id reason moved_at recorded_at s).1 in
      let s2 = r.apply (xack stream number) s1 in
      let hashes = (λ (k : Key).
        r.hgetall-apply (xdel stream number) s2 k ∙ r.hgetall-apply (xack stream number) s1 k) in
      let scores = (λ (k : Key) (m : Text).
        r.zscore-apply (xdel stream number) s2 k m ∙ r.zscore-apply (xack stream number) s1 k m) in
      let (_, failed_now, reported, _, index) = given in
      rw (stored, old, capped)
        (
          refl,
          rw (hashes (result_key self id)) failed_now,
          rw (hashes (result_key self id)) reported,
          λ tu. (scores _ id ∙ (index tu).0, scores _ id ∙ (index tu).1),
          rw (
            r.xrange-apply (xdel stream number),
            r.xrange-apply (xack stream number),
            text_eq_refl,
            quiet.0 stream,
          ),
          rw (
            r.xpending-apply (xdel stream number),
            r.xpending-apply (xack stream number),
            text_eq_refl,
            quiet.1 stream,
          ),
        )
