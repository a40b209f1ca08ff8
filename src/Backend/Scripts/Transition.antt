-- ===== src/Backend/Scripts/Transition.antt =====
-- The loop of `_TRANSITION_TASK_STATUS` makes one move, exactly if the status is among those allowed.
use django_tasks_redis.Prelude.{
  ℕ, ◌≡◌, refl, Option, none, some, List, [], ◌∷◌, Text, Bool-cases, inl, inr, any, get_or,
  if◌then◌else◌,
}
use django_tasks_redis.Prelude.Int.{ℤ, pos}
use django_tasks_redis.Task.{Status, Value, state, status, has_status}
use django_tasks_redis.Redis.{Key, Server, execute, hget, hset}
use django_tasks_redis.Backend.Index.{lua_index_status}
use django_tasks_redis.Backend.Scripts.{transition_from, transition_script}

module _ {S : Type 0} (r : Server S) (keys : List Key) (to_status : Status) (task_id : Text)
    (score : ℕ) (cutoff : Option ℤ) (s : S) (v : Value) where
  abbrev moved_by : S
  moved_by =
      execute r
        (hset (get_or keys 0 []) ((status, state to_status) ∷ [])
          ∷ lua_index_status keys task_id to_status score cutoff)
        s

  transition_from_lem :
      (allowed : List Status)
      → transition_from r (some v) keys to_status task_id score cutoff allowed s
        ≡ (if any (has_status (some v)) allowed then (pos 1, moved_by) else (pos 0, s))
  unfolding transition_from
  transition_from_lem [] = refl
  transition_from_lem (a ∷ allowed) = elim (Bool-cases (has_status (some v) a)) [
    | inl e ↦ rw e
    | inr e ↦ rw e (transition_from_lem allowed)
  ]

  pub transition_script_lem :
      (allowed : List Status)
      → hget r s (get_or keys 0 []) status ≡ some v
      → transition_script r keys to_status task_id score cutoff allowed s
        ≡ (if any (has_status (some v)) allowed then (pos 1, moved_by) else (pos 0, s))
  unfolding transition_script
  transition_script_lem allowed current = rw current (transition_from_lem allowed)

-- Nothing is moved for a task that is not stored.
pub transition_script_missing :
    {S : Type 0} (r : Server S) (keys : List Key) (to_status : Status) (task_id : Text) (score : ℕ)
    (cutoff : Option ℤ) (allowed : List Status) (s : S)
    → hget r s (get_or keys 0 []) status ≡ none
    → transition_script r keys to_status task_id score cutoff allowed s ≡ (pos 0, s)
unfolding transition_script transition_from
transition_script_missing r keys to_status task_id score cutoff allowed s missing = rw missing
