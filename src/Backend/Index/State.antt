-- ===== src/Backend/Index/State.antt =====
-- A task stands in the index under one status, and what a write with its index move leaves behind.
use django_tasks_redis.Prelude.{
  ℕ, ◌≡◌, refl, Bool, true, false, Option, none, some, List, ◌∷◌, Text, text_eq, text_eq_refl,
  if◌then◌else◌,
}
use django_tasks_redis.Task.{Field, Value, Status, status_eq}
use django_tasks_redis.Redis.{
  Key, Server, hset, execute, hgetall-execute, hash_or_empty, hset_field,
}
use django_tasks_redis.Backend.Config.{Config, index_key}
use django_tasks_redis.Backend.Index.{index_status}
use django_tasks_redis.Backend.Index.Effect.{moved, zscore-index_status, hash_effects-index_status}

module _ {S : Type 0} (r : Server S) (self : Config) where
  -- Of the backend-wide sets and of the sets of its queue, the task is in those of `status`, with the
  -- score `since`, and in no other.
  abbrev pub IndexedAs : Text → Text → Status → ℕ → S → Type 0
  IndexedAs task_id queue_name status since s =
      (tu : Status)
      → (r.zscore s (index_key self none tu) task_id
          ≡ (if status_eq tu status then some since else none))
        × (r.zscore s (index_key self (some queue_name) tu) task_id
            ≡ (if status_eq tu status then some since else none))

  moved_self :
      (same : Bool) (since : ℕ) (cutoff : _) (o : Option ℕ)
      → moved true same true since cutoff o ≡ (if same then some since else none)
  moved_self true since cutoff o = refl
  moved_self false since cutoff o = refl

  pub index_status-IndexedAs :
      (task_id queue_name : Text) (status : Status) (since now : ℕ) (s : S)
      → IndexedAs task_id queue_name status since
          (execute r (index_status self task_id queue_name status since now) s)
  index_status-IndexedAs task_id queue_name status since now s tu = (
    rw (zscore-index_status, text_eq_refl) (moved_self (status_eq tu status) since _ _),
    rw (zscore-index_status, text_eq_refl, text_eq_refl)
        (moved_self (status_eq tu status) since _ _),
  )

  -- The same with writes to hashes in front of the move.
  pub write-IndexedAs :
      (key : Key) (fields : List (Field × Value)) (task_id queue_name : Text) (status : Status)
      (since now : ℕ) (s : S)
      → IndexedAs task_id queue_name status since
          (execute r (hset key fields ∷ index_status self task_id queue_name status since now) s)
  unfolding execute
  write-IndexedAs key fields task_id queue_name status since now s =
      index_status-IndexedAs task_id queue_name status since now (r.apply (hset key fields) s)

  -- The hashes after a write of some fields of one of them and an index move.
  pub hgetall-write :
      (key : Key) (fields : List (Field × Value)) (task_id queue_name : Text) (status : Status)
      (since now : ℕ) (s : S) (k : Key)
      → r.hgetall
          (execute r (hset key fields ∷ index_status self task_id queue_name status since now) s)
          k
        ≡ (if text_eq key k
            then some (λ f. hset_field fields f (hash_or_empty (r.hgetall s k) f))
            else r.hgetall s k)
  hgetall-write key fields task_id queue_name status since now s k =
      rw (hgetall-execute, hash_effects-index_status)
