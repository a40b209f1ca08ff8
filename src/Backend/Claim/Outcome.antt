-- ===== src/Backend/Claim/Outcome.antt =====
-- What a claim and a transition return and write, on every branch.
use django_tasks_redis.Prelude.{
  ℕ, ◌≡◌, true, false, Option, some, List, [], ◌∷◌, Text, Bool-cases, inl, inr, ok, or_else, any,
  if◌then◌else◌,
}
use django_tasks_redis.Task.{
  Hash, Status, Value, text, state, ready, running, status, queue_name, started_at, worker_ids_json,
  has_status,
}
use django_tasks_redis.Redis.{Server, hset, execute}
use django_tasks_redis.Backend.Config.{Config, result_key, status_index_keys, status_index_cutoff}
use django_tasks_redis.Backend.Index.{index_status}
use django_tasks_redis.Backend.Index.Effect.{index_status-eq-lua_index_status}
use django_tasks_redis.Backend.Scripts.{claim_script, claim_fields}
use django_tasks_redis.Backend.Scripts.Transition.{transition_script_lem}
use django_tasks_redis.Backend.Claim.{claim_task, transition_task_status}

module _ {S : Type 0} (r : Server S) (self : Config) (task_id : Text) (now : ℕ) (s : S) where
  abbrev pub claimed_store : Hash → Text → Text → S
  claimed_store h q worker =
      execute r
        (hset (result_key self task_id)
            (claim_fields (h started_at) (h worker_ids_json) now worker running)
          ∷ index_status self task_id q running now now)
        s

  pub claim_task_lem :
      (h : Hash) (q : Text) (v : Value) (worker : Option Text) (allowed : Option (List Status))
      → r.hgetall s (result_key self task_id) ≡ some h
      → h queue_name ≡ some (text q)
      → h status ≡ some v
      → claim_task r self task_id worker allowed now s ≡ (
          if any (has_status (some v)) (or_else allowed (ready ∷ []))
          then (ok true, claimed_store h q (or_else worker []))
          else (ok false, s))
  unfolding claim_task claim_script
  claim_task_lem h q v worker allowed stored queued current =
      elim (Bool-cases (any (has_status (some v)) (or_else allowed (ready ∷ [])))) [
        | inl e ↦ rw (stored, queued, stored, current, stored, index_status-eq-lua_index_status, e)
        | inr e ↦ rw (stored, queued, stored, current, stored, index_status-eq-lua_index_status, e)
      ]

  -- A transition: made from an allowed status, refused otherwise, and refused for a missing task.
  abbrev pub moved_store : Text → Status → S
  moved_store q to_status =
      execute r
        (hset (result_key self task_id) ((status, state to_status) ∷ [])
          ∷ index_status self task_id q to_status now now)
        s

  pub transition_task_status_lem :
      (h : Hash) (q : Text) (v : Value) (to_status : Status) (allowed : List Status)
      → r.hgetall s (result_key self task_id) ≡ some h
      → h queue_name ≡ some (text q)
      → h status ≡ some v
      → transition_task_status r self task_id to_status allowed now s ≡ (
          if any (has_status (some v)) allowed then (true, moved_store q to_status) else (false, s))
  unfolding transition_task_status
  transition_task_status_lem h q v to_status allowed stored queued current =
      let step =
        transition_script_lem r (result_key self task_id ∷ status_index_keys self (some q))
          to_status task_id now (status_index_cutoff self to_status now) s v allowed
          (rw stored current) in
      elim (Bool-cases (any (has_status (some v)) allowed)) [
        | inl e ↦ rw (stored, queued, step, index_status-eq-lua_index_status, e)
        | inr e ↦ rw (stored, queued, step, e)
      ]
