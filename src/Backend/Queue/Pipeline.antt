-- ===== src/Backend/Queue/Pipeline.antt =====
-- What the parts of the transaction of enqueue do (backends.py, enqueue).
use django_tasks_redis.Prelude.{
  ℕ, ◌≡◌, refl, Bool, true, Bool-cases, inl, inr, Option, none, some, ◌∷◌, ◌++◌, Text,
}
use django_tasks_redis.Prelude.Int.{pos, ltb_ℤ}
use django_tasks_redis.Task.{Hash, Status}
use django_tasks_redis.Redis.{
  Key, sadd, hash_effects, hash_effects-append, score_effects, member_effects, leaves_streams,
}
use django_tasks_redis.Utils.Keys.{text_eq-delayed_key}
use django_tasks_redis.Backend.Config.{Config, index_key, results_index_key}
use django_tasks_redis.Backend.Index.{index_status}
use django_tasks_redis.Backend.Index.Effect.{hash_effects-index_status}
use django_tasks_redis.Backend.Queue.{Task, expire_result, queue_up}

module _ (self : Config) (task : Task) (id : Text) (now : ℕ) where
  pub hash_effects-expire_result :
      (d : Option ℕ) (k : Key) (h : Option Hash)
      → hash_effects (expire_result self id d now) k h ≡ h
  unfolding expire_result
  hash_effects-expire_result d k h = elim (Bool-cases (ltb_ℤ (pos 0) self.result_ttl)) [
    | inl e ↦ rw e
    | inr e ↦ rw e
  ]

  pub hash_effects-queue_up :
      (h0 : Hash) (d : Option ℕ) (k : Key) (h : Option Hash)
      → hash_effects (queue_up self task id h0 d) k h ≡ h
  unfolding queue_up
  hash_effects-queue_up h0 none k h = refl
  hash_effects-queue_up h0 (some t) k h = refl

  pub member_effects-expire_result :
      (d : Option ℕ) (k : Key) (m : Text) (b : Bool)
      → member_effects (expire_result self id d now) k m b ≡ b
  unfolding expire_result
  member_effects-expire_result d k m b = elim (Bool-cases (ltb_ℤ (pos 0) self.result_ttl)) [
    | inl e ↦ rw e
    | inr e ↦ rw e
  ]

  pub member_effects-queue_up :
      (h0 : Hash) (d : Option ℕ) (k : Key) (m : Text) (b : Bool)
      → member_effects (queue_up self task id h0 d) k m b ≡ b
  unfolding queue_up
  member_effects-queue_up h0 none k m b = refl
  member_effects-queue_up h0 (some t) k m b = refl

  pub score_effects-queue_up :
      (h0 : Hash) (d : Option ℕ) (q : Option Text) (tu : Status) (m : Text) (o : Option ℕ)
      → score_effects (queue_up self task id h0 d) (index_key self q tu) m o ≡ o
  unfolding queue_up
  score_effects-queue_up h0 none q tu m o = refl
  score_effects-queue_up h0 (some t) q tu m o =
      rw (text_eq-delayed_key self.key_prefix self.alias tu q task.queue).1

  pub leaves_streams-expire_result :
      (d : Option ℕ) → leaves_streams (expire_result self id d now) ≡ true
  unfolding expire_result
  leaves_streams-expire_result d = elim (Bool-cases (ltb_ℤ (pos 0) self.result_ttl)) [
    | inl e ↦ rw e
    | inr e ↦ rw e
  ]

  pub score_effects-expire_result :
      (d : Option ℕ) (k : Key) (m : Text) (o : Option ℕ)
      → score_effects (expire_result self id d now) k m o ≡ o
  unfolding expire_result
  score_effects-expire_result d k m o = elim (Bool-cases (ltb_ℤ (pos 0) self.result_ttl)) [
    | inl e ↦ rw e
    | inr e ↦ rw e
  ]

  -- After the write of the hash no command of the transaction touches a hash.
  pub hash_effects-pipeline_tail :
      (st : Status) (since : ℕ) (d : Option ℕ) (h0 : Hash) (k : Key) (h : Option Hash)
      → hash_effects
          (expire_result self id d now
            ++ sadd (results_index_key self) id
              ∷ (index_status self id task.queue st since now ++ queue_up self task id h0 d))
          k
          h
        ≡ h
  hash_effects-pipeline_tail st since d h0 k h = rw (
    hash_effects-append, hash_effects-expire_result, hash_effects-append, hash_effects-index_status,
    hash_effects-queue_up,
  )
