-- ===== src/Executor/Processed.antt =====
-- A loop over tasks stays within its limit, ends, and reports finished tasks (executor.py).
use django_tasks_redis.Prelude.{
  ℕ, zero, suc, ◌+◌, ◌≤◌, ◌<◌, ◌≡◌, refl, sym, ◌∙◌, Bool, true, ◌&&◌, ◌||◌, Option, none, some,
  is_some, List, [], ◌∷◌, ◌++◌, Text, Result, ok, raise, ltb, leb, length, length-append, all,
  arith, Bool-cases, inl, inr,
}
use django_tasks_redis.Task.{status_eq, successful, failed}
use django_tasks_redis.TaskResult.{TaskResult}
use django_tasks_redis.Redis.{Server}
use django_tasks_redis.Backend.Config.{Config}
use django_tasks_redis.Backend.Run.{Environment}
use django_tasks_redis.Backend.Run.Final.{run_task_finishes}
use django_tasks_redis.Broker.{BrokerMessage, id_text}
use django_tasks_redis.Executor.{
  Surroundings, run_message, acknowledged, tried, received, process_one_task, processed,
  process_from, process_tasks,
}

abbrev pub is_finished : TaskResult → Bool
is_finished result = status_eq result.status successful || status_eq result.status failed

module _ {S : Type 0} (r : Server S) (self : Config) (env : Environment S)
    (outside : Surroundings S) (worker_id : Text) where
  processed_ends :
      (max_tasks : ℕ) (results : List TaskResult)
      (again : List TaskResult → S → Option (Result (List TaskResult) × S))
      (reply : Option (Result (Option TaskResult) × S))
      → length results < max_tasks
      → is_some reply ≡ true
      → ((result : TaskResult) (s : S)
          → length (results ++ result ∷ []) < max_tasks
          → is_some (again (results ++ result ∷ []) s) ≡ true)
      → is_some (processed r self env outside worker_id max_tasks results again reply) ≡ true
  unfolding processed
  processed_ends max_tasks results again none room returns next = cc
  processed_ends max_tasks results again (some (raise e, s)) room returns next = refl
  processed_ends max_tasks results again (some (ok none, s)) room returns next = refl
  processed_ends max_tasks results again (some (ok (some result), s)) room returns next =
      elim (Bool-cases (leb max_tasks (length (results ++ result ∷ [])))) [
        | inl full ↦ ground arith
        | inr free ↦ ground (arith, next result s)
      ]

  process_from_ends :
      (tries fuel max_tasks : ℕ) (results : List TaskResult) (s : S)
      → ((s' : S) → is_some (process_one_task r self env outside worker_id tries s') ≡ true)
      → length results < max_tasks
      → max_tasks ≤ length results + fuel
      → is_some (process_from r self env outside worker_id tries fuel max_tasks results s) ≡ true
  unfolding process_from
  process_from_ends tries zero max_tasks results s returns room enough = ground arith
  process_from_ends tries (suc fuel) max_tasks results s returns room enough =
      let turn =
        processed_ends max_tasks results
          (process_from r self env outside worker_id tries fuel max_tasks)
          (process_one_task r self env outside worker_id tries s) room (returns s)
          (λ result s' room'.
            process_from_ends tries fuel max_tasks (results ++ result ∷ []) s' returns room'
              (omega (arith, enough, length-append results (result ∷ [])))) in
      elim (Bool-cases (outside.is_set s)) [ inl stop ↦ rw stop | inr go ↦ rw go turn ]

  -- Under a positive limit process_tasks returns or raises within as many turns of its loop as the
  -- limit, if every call of process_one_task does.
  pub process_tasks_ends :
      (tries max_tasks : ℕ) (s : S)
      → ((s' : S) → is_some (process_one_task r self env outside worker_id tries s') ≡ true)
      → 0 < max_tasks
      → is_some (process_tasks r self env outside worker_id tries max_tasks max_tasks s) ≡ true
  unfolding process_tasks
  process_tasks_ends tries max_tasks s returns room =
      process_from_ends tries max_tasks max_tasks [] s returns room (omega arith)

  some_inj :
      {A B : Type 0} (x y : A) (a b : B)
      → ◌≡◌ {A = Option (Result (Option A) × B)} (some (ok (some x), a)) (some (ok (some y), b))
      → x ≡ y
  some_inj x y a b e = cc

  tried_finished :
      (message : BrokerMessage) (out : Result (Option TaskResult) × S)
      (again : S → Option (Result (Option TaskResult) × S)) (result : TaskResult) (s' : S)
      → ((x : TaskResult) → out.0 ≡ ok (some x) → is_finished x ≡ true)
      → ((s1 : S) → again s1 ≡ some (ok (some result), s') → is_finished result ≡ true)
      → tried r self env outside worker_id again
          (acknowledged r self env outside worker_id message out)
        ≡ some (ok (some result), s')
      → is_finished result ≡ true
  unfolding tried acknowledged
  tried_finished message (raise x, s1) again result s' good later e = cc
  tried_finished message (ok none, s1) again result s' good later e = later _ e
  tried_finished message (ok (some x), s1) again result s' good later e =
      rw (sym (some_inj x result _ s' e)) (good x refl)

  run_message_finished :
      (message : BrokerMessage) (s : S) (x : TaskResult)
      → (run_message r self env outside worker_id message s).0 ≡ ok (some x)
      → is_finished x ≡ true
  unfolding run_message
  run_message_finished message s x e =
      elim (run_task_finishes r self env (id_text message.id) (some worker_id) none _ _ _ s x e) [
        | inl h ↦ rw h
        | inr h ↦ rw h
      ]

  received_finished :
      (again : S → Option (Result (Option TaskResult) × S))
      (reply : Result (List BrokerMessage) × S) (result : TaskResult) (s' : S)
      → ((s1 : S) → again s1 ≡ some (ok (some result), s') → is_finished result ≡ true)
      → received r self env outside worker_id again reply ≡ some (ok (some result), s')
      → is_finished result ≡ true
  unfolding received
  received_finished again (raise x, s) result s' later e = cc
  received_finished again (ok [], s) result s' later e = cc
  received_finished again (ok (message ∷ messages), s) result s' later e =
      tried_finished message (run_message r self env outside worker_id message s) again result s'
        (run_message_finished message s) later e

  -- A result of process_one_task is the result of a task that has finished.
  pub process_one_task_finished :
      (fuel : ℕ) (s : S) (result : TaskResult) (s' : S)
      → process_one_task r self env outside worker_id fuel s ≡ some (ok (some result), s')
      → is_finished result ≡ true
  unfolding process_one_task
  process_one_task_finished zero s result s' e = cc
  process_one_task_finished (suc fuel) s result s' e =
      received_finished (process_one_task r self env outside worker_id fuel) (outside.receive s)
        result s' (λ s1. process_one_task_finished fuel s1 result s') e

  abbrev Within : ℕ → List TaskResult → Type 0
  Within max_tasks results = (length results ≤ max_tasks) × (all is_finished results ≡ true)

  all-snoc :
      (results : List TaskResult) (result : TaskResult)
      → all is_finished results ≡ true
      → is_finished result ≡ true
      → all is_finished (results ++ result ∷ []) ≡ true
  all-snoc [] result h h' = ground arith
  all-snoc (x ∷ results) result h h' = ground (arith, all-snoc results result)

  ok_some_inj :
      {A B : Type 0} (x y : A) (a b : B)
      → ◌≡◌ {A = Option (Result A × B)} (some (ok x, a)) (some (ok y, b))
      → x ≡ y
  ok_some_inj x y a b e = cc

  processed-Within :
      (max_tasks : ℕ) (results : List TaskResult)
      (again : List TaskResult → S → Option (Result (List TaskResult) × S))
      (reply : Option (Result (Option TaskResult) × S)) (out : List TaskResult) (s' : S)
      → length results < max_tasks
      → all is_finished results ≡ true
      → ((x : TaskResult) (s1 : S) → reply ≡ some (ok (some x), s1) → is_finished x ≡ true)
      → ((more : List TaskResult) (s1 : S)
          → length more < max_tasks
          → all is_finished more ≡ true
          → again more s1 ≡ some (ok out, s')
          → Within max_tasks out)
      → processed r self env outside worker_id max_tasks results again reply ≡ some (ok out, s')
      → Within max_tasks out
  unfolding processed
  processed-Within max_tasks results again none out s' room done good next e = cc
  processed-Within max_tasks results again (some (raise x, s)) out s' room done good next e = cc
  processed-Within max_tasks results again (some (ok none, s)) out s' room done good next e =
      rw (sym (ok_some_inj results out s s' e)) (omega (arith, room), done)
  processed-Within max_tasks results again (some (ok (some x), s)) out s' room done good next e =
      let more = results ++ x ∷ [] in
      let done' = all-snoc results x done (good x s refl) in
      let long = length-append results (x ∷ []) in
      elim (Bool-cases (ltb 0 max_tasks && leb max_tasks (length more))) [
        | inl full ↦
            let same : ◌≡◌ {A = Option (Result (List TaskResult) × S)} (some (ok more, s))
                (some (ok out, s')) =
              sym (rw full refl) ∙ e in
            rw (sym (ok_some_inj more out s s' same)) (omega (arith, room, long), done')
        | inr free ↦
            let same : again more s ≡ some (ok out, s') = sym (rw free refl) ∙ e in
            next more s (ground arith) done' same
      ]

  process_from-Within :
      (tries fuel max_tasks : ℕ) (results : List TaskResult) (s : S) (out : List TaskResult)
      (s' : S)
      → length results < max_tasks
      → all is_finished results ≡ true
      → process_from r self env outside worker_id tries fuel max_tasks results s ≡ some (ok out, s')
      → Within max_tasks out
  unfolding process_from
  process_from-Within tries zero max_tasks results s out s' room done e = cc
  process_from-Within tries (suc fuel) max_tasks results s out s' room done e =
      elim (Bool-cases (outside.is_set s)) [
        | inl stop ↦
            let same : ◌≡◌ {A = Option (Result (List TaskResult) × S)} (some (ok results, s))
                (some (ok out, s')) =
              sym (rw stop refl) ∙ e in
            rw (sym (ok_some_inj results out s s' same)) (omega (arith, room), done)
        | inr go ↦
            processed-Within max_tasks results
              (process_from r self env outside worker_id tries fuel max_tasks)
              (process_one_task r self env outside worker_id tries s) out s' room done
              (λ x s1. process_one_task_finished tries s x s1)
              (λ more s1. process_from-Within tries fuel max_tasks more s1 out s')
              (sym (rw go refl) ∙ e)
      ]

  -- Under a positive limit, the results that process_tasks returns are no more than the limit, and each
  -- is SUCCESSFUL or FAILED.
  pub process_tasks_within :
      (tries fuel max_tasks : ℕ) (s : S) (out : List TaskResult) (s' : S)
      → 0 < max_tasks
      → process_tasks r self env outside worker_id tries fuel max_tasks s ≡ some (ok out, s')
      → (length out ≤ max_tasks) × (all is_finished out ≡ true)
  unfolding process_tasks
  process_tasks_within tries fuel max_tasks s out s' room e =
      process_from-Within tries fuel max_tasks [] s out s' room refl e
