-- ===== src/Backend/Claim/Claimed.antt =====
-- A claim that succeeds, one that is refused, and a race of claims for one task.
use mathlib.Core.List.{append-nil}
use django_tasks_redis.Prelude.{
  ℕ, ◌≡◌, refl, ap, ◌∙◌, true, false, Option, none, some, List, [], ◌∷◌, ◌++◌, Text, text_eq_refl,
  arith, ok, raise, does_not_exist, or_else, any, if◌then◌else◌,
}
use django_tasks_redis.Task.{
  Hash, Field, Status, Value, text, state, time, ready, running, status, queue_name, started_at,
  last_attempted_at, worker_ids_json, has_status, is_blank, worker_ids_of,
}
use django_tasks_redis.Redis.{Server, hget, hset_field}
use django_tasks_redis.Backend.Config.{Config, result_key}
use django_tasks_redis.Backend.Index.State.{IndexedAs, write-IndexedAs, hgetall-write}
use django_tasks_redis.Backend.Scripts.{claim_fields}
use django_tasks_redis.Backend.Claim.{claim_task}
use django_tasks_redis.Backend.Claim.Outcome.{claim_task_lem, claimed_store}

-- What a claim writes to the fields of the hash.
pub claim_fields_status :
    (old raw : Option Value) (now : ℕ) (w : Text) (st : Status) (o : Option Value)
    → hset_field (claim_fields old raw now w st) status o ≡ some (state st)
unfolding claim_fields
claim_fields_status old raw now [] st o = ground arith
claim_fields_status old raw now (c ∷ cs) st o = ground arith

pub claim_fields_queue :
    (old raw : Option Value) (now : ℕ) (w : Text) (st : Status) (o : Option Value)
    → hset_field (claim_fields old raw now w st) queue_name o ≡ o
unfolding claim_fields
claim_fields_queue old raw now [] st o = ground arith
claim_fields_queue old raw now (c ∷ cs) st o = ground arith

claim_fields_attempt :
    (old raw : Option Value) (now : ℕ) (w : Text) (st : Status) (o : Option Value)
    → hset_field (claim_fields old raw now w st) last_attempted_at o ≡ some (time now)
unfolding claim_fields
claim_fields_attempt old raw now [] st o = ground arith
claim_fields_attempt old raw now (c ∷ cs) st o = ground arith

claim_fields_started :
    (old raw : Option Value) (now : ℕ) (w : Text) (st : Status)
    → hset_field (claim_fields old raw now w st) started_at old
      ≡ (if is_blank old then some (time now) else old)
unfolding claim_fields
claim_fields_started old raw now [] st = ground arith
claim_fields_started old raw now (c ∷ cs) st = ground arith

abbrev recorded : Text → List Text
recorded [] = []
recorded (c ∷ cs) = (c ∷ cs) ∷ []

claim_fields_workers :
    (old raw : Option Value) (now : ℕ) (w : Text) (st : Status)
    → worker_ids_of (hset_field (claim_fields old raw now w st) worker_ids_json raw)
      ≡ worker_ids_of raw ++ recorded w
unfolding claim_fields
claim_fields_workers old raw now [] st = simp append-nil (ground arith)
claim_fields_workers old raw now (c ∷ cs) st = ground arith

module _ {S : Type 0} (r : Server S) (self : Config) (task_id : Text) where
  -- The claimed task's hash.
  pub hgetall-claimed_store :
      (now : ℕ) (s : S) (h : Hash) (q w : Text)
      → r.hgetall s (result_key self task_id) ≡ some h
      → r.hgetall (claimed_store r self task_id now s h q w) (result_key self task_id)
        ≡ some (λ f.
          hset_field (claim_fields (h started_at) (h worker_ids_json) now w running) f (h f))
  hgetall-claimed_store now s h q w stored = rw (hgetall-write, text_eq_refl, stored)

  hget-claimed :
      (now : ℕ) (s : S) (h : Hash) (q w : Text) (f : Field)
      → r.hgetall s (result_key self task_id) ≡ some h
      → hget r (claimed_store r self task_id now s h q w) (result_key self task_id) f
        ≡ hset_field (claim_fields (h started_at) (h worker_ids_json) now w running) f (h f)
  hget-claimed now s h q w f stored = rw (hgetall-write, text_eq_refl, stored)

  -- A claim of a stored task with its queue, in a status that is allowed, succeeds: the task is
  -- RUNNING, the attempt has its time, an earlier start is kept, the worker's id, if it has one, is
  -- behind those of earlier attempts, and the index has the task under RUNNING alone.
  pub claim_task_claims :
      (now : ℕ) (s : S) (h : Hash) (q : Text) (v : Value) (worker : Option Text)
      (allowed : Option (List Status))
      → r.hgetall s (result_key self task_id) ≡ some h
      → h queue_name ≡ some (text q)
      → h status ≡ some v
      → any (has_status (some v)) (or_else allowed (ready ∷ [])) ≡ true
      → let (outcome, after) = claim_task r self task_id worker allowed now s in
        let key = result_key self task_id in
        (outcome ≡ ok true)
        × (hget r after key status ≡ some (state running))
        × (hget r after key last_attempted_at ≡ some (time now))
        × (hget r after key started_at
            ≡ (if is_blank (h started_at) then some (time now) else h started_at))
        × (worker_ids_of (hget r after key worker_ids_json)
            ≡ worker_ids_of (h worker_ids_json) ++ recorded (or_else worker []))
        × IndexedAs r self task_id q running now after
  claim_task_claims now s h q v worker allowed stored queued current allows =
      let w : Text = or_else worker [] in
      rw (claim_task_lem r self task_id now s h q v worker allowed stored queued current, allows)
        (
          refl,
          hget-claimed now s h q w status stored ∙ claim_fields_status _ _ now w running _,
          hget-claimed now s h q w last_attempted_at stored
              ∙ claim_fields_attempt _ _ now w running _,
          hget-claimed now s h q w started_at stored ∙ claim_fields_started _ _ now w running,
          ap worker_ids_of (hget-claimed now s h q w worker_ids_json stored)
              ∙ claim_fields_workers _ _ now w running,
          write-IndexedAs r self _ _ task_id q running now now s,
        )

  -- A claim of a stored task with its queue, in a status that is not allowed, is told False and writes
  -- nothing.
  pub claim_task_refuses :
      (now : ℕ) (s : S) (h : Hash) (q : Text) (v : Value) (worker : Option Text)
      (allowed : Option (List Status))
      → r.hgetall s (result_key self task_id) ≡ some h
      → h queue_name ≡ some (text q)
      → h status ≡ some v
      → any (has_status (some v)) (or_else allowed (ready ∷ [])) ≡ false
      → claim_task r self task_id worker allowed now s ≡ (ok false, s)
  claim_task_refuses now s h q v worker allowed stored queued current refuses =
      rw (claim_task_lem r self task_id now s h q v worker allowed stored queued current, refuses)

  pub claim_task_missing :
      (now : ℕ) (s : S) (worker : Option Text) (allowed : Option (List Status))
      → r.hgetall s (result_key self task_id) ≡ none
      → claim_task r self task_id worker allowed now s ≡ (raise (does_not_exist task_id), s)
  unfolding claim_task
  claim_task_missing now s worker allowed gone = rw gone
