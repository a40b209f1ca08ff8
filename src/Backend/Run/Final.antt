-- ===== src/Backend/Run/Final.antt =====
-- A run that returns a result returns a finished one.
use django_tasks_redis.Prelude.{
  ℕ, ◌≡◌, refl, sym, ap, ◌∙◌, Bool, true, false, ◌⊎◌, inl, inr, Option, none, some, List, Text,
  Result, ok, raise, Error, arith,
}
use django_tasks_redis.Prelude.Checked.{first-ok}
use django_tasks_redis.Prelude.{bind-eq-ok}
use django_tasks_redis.Task.{Hash, Status, state, successful, failed, status, task_id, task_path}
use django_tasks_redis.TaskResult.{TaskResult}
use django_tasks_redis.Redis.{Server, hash_or_empty}
use django_tasks_redis.Backend.Config.{Config, result_key}
use django_tasks_redis.Backend.Data.{data_to_result, required}
use django_tasks_redis.Backend.Finish.Written.{hgetall-record_error, hgetall-record_success}
use django_tasks_redis.Backend.Run.{
  Environment, run_task, report, after_claim, run_claimed, started, ended, reported, failed_with,
  unwrap, lift,
}

data_to_result_status :
    (alias : Text) (h : Hash) (st : Status) (fr : TaskResult)
    → h status ≡ some (state st)
    → data_to_result alias h ≡ ok fr
    → fr.status ≡ st
unfolding data_to_result
data_to_result_status alias h st fr hs e =
    let (_, _, e1) = first-ok _ (required (h task_id)) e in ground arith

ok_some_inj :
    (x fr : TaskResult)
    → ◌≡◌ {A = Result (Option TaskResult)} (ok (some x)) (ok (some fr))
    → ◌≡◌ {A = Result TaskResult} (ok x) (ok fr)
ok_some_inj x fr e = cc

returned_inv :
    {S : Type 0} (out : Result TaskResult × S) (fr : TaskResult)
    → (unwrap out).0 ≡ ok (some fr)
    → out.0 ≡ ok fr
returned_inv (ok x, s) fr e = ok_some_inj x fr e
returned_inv (raise x, s) fr e = cc

module _ {S : Type 0} (r : Server S) (self : Config) (env : Environment S) (task_id : Text) where
  -- What is reported was read from the hash.
  report_reads :
      (s : S) (fr : TaskResult)
      → (report r self env task_id s).0 ≡ ok fr
      → data_to_result self.alias (hash_or_empty (r.hgetall s (result_key self task_id))) ≡ ok fr
  unfolding report
  report_reads s fr e =
      let h = hash_or_empty (r.hgetall s (result_key self task_id)) in
      let (final, read, e1) = bind-eq-ok (lift (data_to_result self.alias h)) _ s e in
      let (_, _, e2) = bind-eq-ok (lift (required (h task_path))) _ s e1 in
      let (_, _, e3) = bind-eq-ok (env.task_finished final) _ s e2 in read ∙ e3

  report_status :
      (s : S) (h : Hash) (st : Status) (fr : TaskResult)
      → r.hgetall s (result_key self task_id) ≡ some h
      → h status ≡ some (state st)
      → (report r self env task_id s).0 ≡ ok fr
      → fr.status ≡ st
  report_status s h st fr stored hs e =
      data_to_result_status self.alias h st fr hs
        (ap (λ o. data_to_result self.alias (hash_or_empty o)) (sym stored) ∙ report_reads s fr e)

  failed_with_status :
      (task_data : Hash) (failed_at : ℕ) (e : Error) (s : S) (fr : TaskResult)
      → (failed_with r self env task_id task_data failed_at e s).0 ≡ ok (some fr)
      → fr.status ≡ failed
  unfolding failed_with
  failed_with_status task_data failed_at e s fr h =
      report_status _ _ failed fr
        (hgetall-record_error r self task_id task_data failed_at s (env.describe e)) refl
        (returned_inv _ fr h)

  reported_status :
      (task_data : Hash) (failed_at : ℕ) (out : Result TaskResult × S) (fr : TaskResult)
      → ((x : TaskResult) → out.0 ≡ ok x → x.status ≡ successful)
      → (reported r self env task_id task_data failed_at out).0 ≡ ok (some fr)
      → (fr.status ≡ successful) ⊎ (fr.status ≡ failed)
  unfolding reported
  reported_status task_data failed_at (ok x, s) fr good e = inl (good fr (ok_some_inj x fr e))
  reported_status task_data failed_at (raise x, s) fr good e =
      inr (failed_with_status task_data failed_at x s fr e)

  ended_status :
      (task_data : Hash) (finished_at failed_at : ℕ) (out : Result Text × S) (fr : TaskResult)
      → (ended r self env task_id task_data finished_at failed_at out).0 ≡ ok (some fr)
      → (fr.status ≡ successful) ⊎ (fr.status ≡ failed)
  unfolding ended
  ended_status task_data finished_at failed_at (raise x, s) fr e =
      inr (failed_with_status task_data failed_at x s fr e)
  ended_status task_data finished_at failed_at (ok value, s) fr e =
      reported_status _ failed_at _ fr
        (λ x read.
          report_status _ _ successful x
            (hgetall-record_success r self task_id task_data finished_at s value) refl read)
        e

  started_status :
      (task_data : Hash) (finished_at failed_at : ℕ) (out : Result (Option Bool × TaskResult) × S)
      (fr : TaskResult)
      → (started r self env task_id task_data finished_at failed_at out).0 ≡ ok (some fr)
      → (fr.status ≡ successful) ⊎ (fr.status ≡ failed)
  unfolding started
  started_status task_data finished_at failed_at (ok (task, result), s) fr e =
      ended_status task_data finished_at failed_at _ fr e
  started_status task_data finished_at failed_at (raise x, s) fr e = cc

  run_claimed_status :
      (finished_at failed_at : ℕ) (h : Option Hash) (s : S) (fr : TaskResult)
      → (run_claimed r self env task_id finished_at failed_at h s).0 ≡ ok (some fr)
      → (fr.status ≡ successful) ⊎ (fr.status ≡ failed)
  unfolding run_claimed
  run_claimed_status finished_at failed_at none s fr e = cc
  run_claimed_status finished_at failed_at (some h) s fr e =
      started_status h finished_at failed_at _ fr e

  after_claim_status :
      (finished_at failed_at : ℕ) (out : Result Bool × S) (fr : TaskResult)
      → (after_claim r self env task_id finished_at failed_at out).0 ≡ ok (some fr)
      → (fr.status ≡ successful) ⊎ (fr.status ≡ failed)
  unfolding after_claim
  after_claim_status finished_at failed_at (raise x, s) fr e = cc
  after_claim_status finished_at failed_at (ok false, s) fr e = cc
  after_claim_status finished_at failed_at (ok true, s) fr e =
      run_claimed_status finished_at failed_at _ s fr e

  -- A run that returns a result has finished: SUCCESSFUL or FAILED, whatever the task did.
  pub run_task_finishes :
      (worker : Option Text) (allowed : Option (List Status)) (claimed_at finished_at failed_at : ℕ)
      (s : S) (fr : TaskResult)
      → (run_task r self env task_id worker allowed claimed_at finished_at failed_at s).0
        ≡ ok (some fr)
      → (fr.status ≡ successful) ⊎ (fr.status ≡ failed)
  unfolding run_task
  run_task_finishes worker allowed claimed_at finished_at failed_at s fr e =
      after_claim_status finished_at failed_at _ fr e
