-- ===== src/Backend/Finish/Written.antt =====
-- What a transaction that ends a run leaves behind: the hash, its time to live and the index.
use django_tasks_redis.Prelude.{
  ℕ, ◌≡◌, refl, true, Bool-cases, inl, inr, Option, some, List, [], ◌∷◌, ◌++◌, Text, text_eq,
  text_eq_refl, if◌then◌else◌,
}
use django_tasks_redis.Prelude.Int.{pos, pos_part, ltb_ℤ}
use django_tasks_redis.Task.{
  Hash, Field, Value, Status, TaskError, state, errors, time, text, failed, successful,
  return_value_json, status, errors_json, finished_at, queue_name, errors_of, queue_or_default,
}
use django_tasks_redis.Redis.{
  Key, Command, hset, Server, execute, execute-append, hgetall-execute, ttl-execute, hash_effects,
  hash_effects-append, ttl_effects-append, hash_or_empty, hset_field, hget, leaves_streams,
}
use django_tasks_redis.Backend.Config.{Config, result_key}
use django_tasks_redis.Backend.Index.{index_status}
use django_tasks_redis.Backend.Index.Effect.{
  leaves_streams-index_status, hash_effects-index_status, ttl_effects-index_status,
}
use django_tasks_redis.Backend.Index.State.{IndexedAs, index_status-IndexedAs}
use django_tasks_redis.Backend.Finish.{expire_completed, record_error, record_success}

module _ (self : Config) (task_id queue_name : Text) (fields : List (Field × Value)) (st : Status)
    (now : ℕ) where
  abbrev pub finish : List Command
  finish =
      hset (result_key self task_id) fields
      ∷ (expire_completed self task_id ++ index_status self task_id queue_name st now now)

  pub hash_effects-expire_completed :
      (k : Key) (h : Option Hash) → hash_effects (expire_completed self task_id) k h ≡ h
  unfolding expire_completed
  hash_effects-expire_completed k h = elim (Bool-cases (ltb_ℤ (pos 0) self.completed_task_ttl)) [
    | inl e ↦ rw e
    | inr e ↦ rw e
  ]

  pub leaves_streams-finish : leaves_streams finish ≡ true
  unfolding expire_completed
  leaves_streams-finish =
      let moves = leaves_streams-index_status self task_id queue_name st now now in
      elim (Bool-cases (ltb_ℤ (pos 0) self.completed_task_ttl)) [
        | inl e ↦ rw (e, moves)
        | inr e ↦ rw (e, moves)
      ]

  module _ {S : Type 0} (r : Server S) (s : S) where
    pub hgetall-finish :
        (k : Key)
        → r.hgetall (execute r finish s) k ≡ (
            if text_eq (result_key self task_id) k
            then some (λ f. hset_field fields f (hash_or_empty (r.hgetall s k) f))
            else r.hgetall s k)
    hgetall-finish k = rw (
      hgetall-execute, hash_effects-append, hash_effects-expire_completed,
      hash_effects-index_status,
    )

    pub finish-IndexedAs : IndexedAs r self task_id queue_name st now (execute r finish s)
    unfolding execute
    finish-IndexedAs =
        let s' = r.apply (hset (result_key self task_id) fields) s in
        let moves = index_status self task_id queue_name st now now in
        rw (execute-append r (expire_completed self task_id) moves s') (
          index_status-IndexedAs r self task_id queue_name st now now
            (execute r (expire_completed self task_id) s'))

    -- The time to live of a finished task.
    pub ttl-finish : r.ttl (execute r finish s) (result_key self task_id) ≡ (
        if ltb_ℤ (pos 0) self.completed_task_ttl
        then some (pos_part self.completed_task_ttl)
        else r.ttl s (result_key self task_id))
    unfolding expire_completed
    ttl-finish = elim (Bool-cases (ltb_ℤ (pos 0) self.completed_task_ttl)) [
      | inl e ↦ rw (ttl-execute, ttl_effects-append, ttl_effects-index_status, e, text_eq_refl)
      | inr e ↦ rw (ttl-execute, ttl_effects-append, ttl_effects-index_status, e)
    ]

module _ {S : Type 0} (r : Server S) (self : Config) (task_id : Text) (task_data : Hash) (now : ℕ)
    (s : S) where
  abbrev pub error_fields : TaskError → List (Field × Value)
  error_fields error =
      (status, state failed)
      ∷ (errors_json, errors (errors_of (task_data errors_json) ++ error ∷ []))
      ∷ (finished_at, time now)
      ∷ []

  abbrev pub success_fields : Text → List (Field × Value)
  success_fields value =
      (status, state successful) ∷ (return_value_json, text value) ∷ (finished_at, time now) ∷ []

  -- The hash of the task after each of the two transactions.
  pub hgetall-record_error :
      (error : TaskError)
      → r.hgetall
          (execute r (record_error self task_id task_data error now) s)
          (result_key self task_id)
        ≡ some (λ f. hset_field (error_fields error) f (hget r s (result_key self task_id) f))
  unfolding record_error
  hgetall-record_error error = rw (
    hgetall-finish self task_id (queue_or_default (task_data queue_name)) (error_fields error)
        failed now r s,
    text_eq_refl,
  )

  pub hgetall-record_success :
      (value : Text)
      → r.hgetall
          (execute r (record_success self task_id task_data value now) s)
          (result_key self task_id)
        ≡ some (λ f. hset_field (success_fields value) f (hget r s (result_key self task_id) f))
  unfolding record_success
  hgetall-record_success value = rw (
    hgetall-finish self task_id (queue_or_default (task_data queue_name)) (success_fields value)
        successful now r s,
    text_eq_refl,
  )

  module _ (q : Text) (queued : task_data queue_name ≡ some (text q)) where
    pub record_error-IndexedAs :
        (error : TaskError)
        → IndexedAs r self task_id q failed now
            (execute r (record_error self task_id task_data error now) s)
    unfolding record_error queue_or_default
    record_error-IndexedAs error =
        rw queued (finish-IndexedAs self task_id q (error_fields error) failed now r s)

    pub record_success-IndexedAs :
        (value : Text)
        → IndexedAs r self task_id q successful now
            (execute r (record_success self task_id task_data value now) s)
    unfolding record_success queue_or_default
    record_success-IndexedAs value =
        rw queued (finish-IndexedAs self task_id q (success_fields value) successful now r s)

    -- The hash of a task after its error is recorded: FAILED, the error behind those of `task_data`.
    pub record_error_writes :
        (error : TaskError)
        → let after = execute r (record_error self task_id task_data error now) s in
          let key = result_key self task_id in
          (hget r after key status ≡ some (state failed))
          × (hget r after key errors_json
              ≡ some (errors (errors_of (task_data errors_json) ++ error ∷ [])))
          × (hget r after key finished_at ≡ some (time now))
          × IndexedAs r self task_id q failed now after
    record_error_writes error =
        rw (hgetall-record_error error) (refl, refl, refl, record_error-IndexedAs error)

pub leaves_streams-record_error :
    (self : Config) (task_id : Text) (task_data : Hash) (error : TaskError) (now : ℕ)
    → leaves_streams (record_error self task_id task_data error now) ≡ true
unfolding record_error
leaves_streams-record_error self task_id task_data error now =
    leaves_streams-finish self task_id (queue_or_default (task_data queue_name))
      ((status, state failed)
        ∷ (errors_json, errors (errors_of (task_data errors_json) ++ error ∷ []))
        ∷ (finished_at, time now)
        ∷ [])
      failed now
