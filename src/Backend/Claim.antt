-- ===== src/Backend/Claim.antt =====
-- claim_task and transition_task_status (backends.py): the queue is read ahead of the script, since a
-- script is given every key that it touches.
pub mod Outcome
pub mod Claimed
pub mod Race
use django_tasks_redis.Prelude.{
  ℕ, Bool, false, not, if◌then◌else◌, Option, none, some, List, [], ◌∷◌, Text, Exec, Result, ok,
  raise, does_not_exist, or_else,
}
use django_tasks_redis.Prelude.Int.{ℤ, pos, negsuc, eqb_ℤ}
use django_tasks_redis.Task.{Status, Value, ready, running, queue_name, text_of}
use django_tasks_redis.Redis.{Server, hget}
use django_tasks_redis.Backend.Config.{Config, result_key, status_index_keys, status_index_cutoff}
use django_tasks_redis.Backend.Scripts.{claim_script, transition_script}

module _ {S : Type 0} (r : Server S) (self : Config) where
  claim_outcome : Text → ℤ × S → Result Bool × S
  claim_outcome task_id (outcome, s) =
      if eqb_ℤ outcome (negsuc 0)
      then (raise (does_not_exist task_id), s)
      else (ok (eqb_ℤ outcome (pos 1)), s)

  claim_in : Option Value → Text → Text → List Status → ℕ → Exec S Bool
  unfolding claim_outcome text_of
  claim_in none task_id worker_id from_statuses now s = (raise (does_not_exist task_id), s)
  claim_in (some q) task_id worker_id from_statuses now s = claim_outcome task_id (
      claim_script r (result_key self task_id ∷ status_index_keys self (some (text_of q))) now
        worker_id running task_id now (status_index_cutoff self running now) from_statuses s)

  unfoldable pub claim_task : Text → Option Text → Option (List Status) → ℕ → Exec S Bool
  unfolding claim_in
  claim_task task_id worker_id from_statuses now s =
      claim_in (hget r s (result_key self task_id) queue_name) task_id (or_else worker_id [])
        (or_else from_statuses (ready ∷ [])) now s

  transition_in : Option Value → Text → Status → List Status → ℕ → S → Bool × S
  unfolding text_of
  transition_in none task_id to_status from_statuses now s = (false, s)
  transition_in (some q) task_id to_status from_statuses now s =
      let (moved, s') =
        transition_script r (result_key self task_id ∷ status_index_keys self (some (text_of q)))
          to_status task_id now (status_index_cutoff self to_status now) from_statuses s in
      (not (eqb_ℤ moved (pos 0)), s')

  unfoldable pub transition_task_status : Text → Status → List Status → ℕ → S → Bool × S
  unfolding transition_in
  transition_task_status task_id to_status from_statuses now s =
      transition_in (hget r s (result_key self task_id) queue_name) task_id to_status from_statuses
        now s
