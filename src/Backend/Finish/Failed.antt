-- ===== src/Backend/Finish/Failed.antt =====
-- mark_task_failed on every branch.
use django_tasks_redis.Prelude.{
  ℕ, ◌≡◌, refl, ◌∙◌, true, false, some, [], ◌∷◌, ◌++◌, Text, text_eq_refl, any,
}
use django_tasks_redis.Task.{
  Hash, Value, TaskError, text, state, time, errors, ready, running, failed, status, queue_name,
  errors_json, finished_at, errors_of, has_status,
}
use django_tasks_redis.Redis.{
  Key, xrange-execute, xpending-execute, Server, hget, hset_field, hash_or_empty,
}
use django_tasks_redis.Backend.Config.{Config, result_key}
use django_tasks_redis.Backend.Index.Effect.{leaves_streams-index_status}
use django_tasks_redis.Backend.Index.State.{IndexedAs, hgetall-write}
use django_tasks_redis.Backend.Claim.Outcome.{moved_store, transition_task_status_lem}
use django_tasks_redis.Backend.Finish.{mark_task_failed, abandoned_path}
use django_tasks_redis.Backend.Finish.Written.{leaves_streams-record_error, record_error_writes}

module _ {S : Type 0} (r : Server S) (self : Config) (task_id reason : Text)
    (moved_at recorded_at : ℕ) (s : S) (h : Hash) (q : Text)
    (stored : r.hgetall s (result_key self task_id) ≡ some h)
    (queued : h queue_name ≡ some (text q)) where
  -- Giving up on a task stored with its queue that is neither READY nor RUNNING is told False, and
  -- writes nothing.
  pub mark_task_failed_refuses :
      (v : Value)
      → h status ≡ some v
      → any (has_status (some v)) (ready ∷ running ∷ []) ≡ false
      → mark_task_failed r self task_id reason moved_at recorded_at s ≡ (false, s)
  unfolding mark_task_failed
  mark_task_failed_refuses v current finished = rw (
    transition_task_status_lem r self task_id moved_at s h q v failed (ready ∷ running ∷ []) stored
        queued current,
    finished,
  )

  abbrev given_up : TaskError
  given_up = record { exception_class_path = abandoned_path; traceback = reason }

  -- Giving up on a task stored with its queue that is READY or RUNNING records it as FAILED with the
  -- reason behind the errors that it had, and the index has it under FAILED alone.
  pub mark_task_failed_records :
      (v : Value)
      → h status ≡ some v
      → any (has_status (some v)) (ready ∷ running ∷ []) ≡ true
      → let (done, after) = mark_task_failed r self task_id reason moved_at recorded_at s in
        let key = result_key self task_id in
        (done ≡ true)
        × (hget r after key status ≡ some (state failed))
        × (hget r after key errors_json
            ≡ some (errors (errors_of (h errors_json) ++ given_up ∷ [])))
        × (hget r after key finished_at ≡ some (time recorded_at))
        × IndexedAs r self task_id q failed recorded_at after
  unfolding mark_task_failed
  mark_task_failed_records v current open_ =
      let store = moved_store r self task_id moved_at s q failed in
      let moved : r.hgetall store (result_key self task_id)
          ≡ some (λ f. hset_field ((status, state failed) ∷ []) f (h f)) =
        rw (hgetall-write, text_eq_refl, stored) in
      let written =
        record_error_writes r self task_id (λ f. hset_field ((status, state failed) ∷ []) f (h f))
          recorded_at store q queued given_up in
      rw
        (
          transition_task_status_lem r self task_id moved_at s h q v failed (ready ∷ running ∷ [])
              stored queued current,
          open_,
          moved,
        )
        (refl, written.0, written.1, written.2, written.3)

  -- Giving up touches no stream, nor what it has pending.
  pub mark_task_failed_quiet :
      (v : Value)
      → h status ≡ some v
      → any (has_status (some v)) (ready ∷ running ∷ []) ≡ true
      → let (_, after) = mark_task_failed r self task_id reason moved_at recorded_at s in
        ((k : Key) → r.xrange after k ≡ r.xrange s k)
        × ((k : Key) → r.xpending after k ≡ r.xpending s k)
  unfolding mark_task_failed
  mark_task_failed_quiet v current open_ =
      let store = moved_store r self task_id moved_at s q failed in
      let moved = leaves_streams-index_status self task_id q failed moved_at moved_at in
      let ended =
        leaves_streams-record_error self task_id
          (hash_or_empty (r.hgetall store (result_key self task_id))) given_up recorded_at in
      rw
        (
          transition_task_status_lem r self task_id moved_at s h q v failed (ready ∷ running ∷ [])
              stored queued current,
          open_,
        )
        (
          λ k. xrange-execute r _ store k ended ∙ xrange-execute r _ s k moved,
          λ k. xpending-execute r _ store k ended ∙ xpending-execute r _ s k moved,
        )
