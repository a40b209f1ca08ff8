-- ===== src/Backend/Claim/Race.antt =====
-- Several callers race for one task: the claims reach the server in some order.
use django_tasks_redis.Prelude.{
  ℕ, ◌+◌, ◌≡◌, refl, ◌∙◌, true, Bool, Option, none, some, List, [], ◌∷◌, Text, Result, ok, or_else,
  text_eq_refl,
}
use django_tasks_redis.Task.{
  Hash, state, text, ready, running, status, queue_name, started_at, worker_ids_json,
}
use django_tasks_redis.Redis.{Server, hset_field}
use django_tasks_redis.Backend.Config.{Config, result_key}
use django_tasks_redis.Backend.Index.State.{hgetall-write}
use django_tasks_redis.Backend.Scripts.{claim_fields}
use django_tasks_redis.Backend.Claim.{claim_task}
use django_tasks_redis.Backend.Claim.Outcome.{claim_task_lem, claimed_store}
use django_tasks_redis.Backend.Claim.Claimed.{
  claim_task_refuses, claim_fields_queue, claim_fields_status,
}

abbrev pub wins : Result Bool → ℕ
wins (ok true) = 1
wins _ = 0

module _ {S : Type 0} (r : Server S) (self : Config) (task_id : Text) where
  -- Each caller with its worker id and the time of its claim, and the number that are told True.
  unfoldable pub race : List (Option Text × ℕ) → S → ℕ × S
  race [] s = (0, s)
  race ((worker, now) ∷ callers) s =
      let (outcome, s') = claim_task r self task_id worker none now s in
      let (n, s'') = race callers s' in (wins outcome + n, s'')

  race_busy :
      (callers : List (Option Text × ℕ)) (s : S) (h : Hash) (q : Text)
      → r.hgetall s (result_key self task_id) ≡ some h
      → h queue_name ≡ some (text q)
      → h status ≡ some (state running)
      → race callers s ≡ (0, s)
  unfolding race
  race_busy [] s h q stored queued busy = refl
  race_busy ((worker, now) ∷ callers) s h q stored queued busy = rw (
    claim_task_refuses r self task_id now s h q (state running) worker none stored queued busy refl,
    race_busy callers s h q stored queued busy,
  )

  -- Of any number of callers that claim a READY task, stored with its queue, from the default
  -- statuses, one after another, exactly one is told that it claimed the task: the first. What is
  -- stored is its claim alone.
  pub race_one_winner :
      (worker : Option Text) (now : ℕ) (callers : List (Option Text × ℕ)) (s : S) (h : Hash)
      (q : Text)
      → r.hgetall s (result_key self task_id) ≡ some h
      → h queue_name ≡ some (text q)
      → h status ≡ some (state ready)
      → race ((worker, now) ∷ callers) s
        ≡ (1, claimed_store r self task_id now s h q (or_else worker []))
  unfolding race
  race_one_winner worker now callers s h q stored queued idle =
      let w : Text = or_else worker [] in
      rw (
        claim_task_lem r self task_id now s h q (state ready) worker none stored queued idle,
        race_busy callers (claimed_store r self task_id now s h q w)
            (λ f.
              hset_field (claim_fields (h started_at) (h worker_ids_json) now w running) f (h f))
            q (rw (hgetall-write, text_eq_refl, stored))
            (claim_fields_queue _ _ now w running _ ∙ queued)
            (claim_fields_status _ _ now w running _),
      )
