-- ===== src/Backend/Run/Ends.antt =====
-- How a run ends: refused, unable to start, failed, or successful, and what it leaves in the store.
use django_tasks_redis.Prelude.{
  ap, ◌∙◌, ℕ, ◌≡◌, refl, Bool, true, false, Option, none, some, List, [], ◌∷◌, ◌++◌, Text, Error,
  Result, ok, raise, or_else, any, codes,
}
use django_tasks_redis.Task.{
  Hash, Status, Value, state, text, time, errors, ready, successful, failed, status, task_path,
  args_json, kwargs_json, takes_context, queue_name, errors_json, finished_at, return_value_json,
  has_status, errors_of, text_of,
}
use django_tasks_redis.TaskResult.{TaskResult}
use django_tasks_redis.Redis.{Server, execute, hget, hash_or_empty}
use django_tasks_redis.Backend.Config.{Config, result_key}
use django_tasks_redis.Backend.Index.State.{IndexedAs}
use django_tasks_redis.Backend.Claim.{claim_task}
use django_tasks_redis.Backend.Claim.Claimed.{claim_task_refuses}
use django_tasks_redis.Backend.Finish.{record_error, record_success}
use django_tasks_redis.Backend.Finish.Written.{
  record_error_writes, hgetall-record_success, record_success-IndexedAs,
}
use django_tasks_redis.Backend.Run.{
  Environment, run_task, report, body, failed_with, start, unwrap, json_or, wants_context,
  context_of,
}

module _ {S : Type 0} (r : Server S) (self : Config) (env : Environment S) (task_id : Text)
    (worker : Option Text) (allowed : Option (List Status)) (claimed_at ended_at failed_at : ℕ)
    (s : S) where
  abbrev run : Result (Option TaskResult) × S
  run = run_task r self env task_id worker allowed claimed_at ended_at failed_at s

  pub run_task_skips :
      (h : Hash) (q : Text) (v : Value)
      → r.hgetall s (result_key self task_id) ≡ some h
      → h queue_name ≡ some (text q)
      → h status ≡ some v
      → any (has_status (some v)) (or_else allowed (ready ∷ [])) ≡ false
      → run ≡ (ok none, s)
  unfolding run_task
  run_task_skips h q v stored queued current refuses = rw (
      claim_task_refuses r self task_id claimed_at s h q v worker allowed stored queued current
        refuses)

  module _ (s1 : S) (td : Hash) (q : Text)
      (claimed : claim_task r self task_id worker allowed claimed_at s ≡ (ok true, s1))
      (read : r.hgetall s1 (result_key self task_id) ≡ some td)
      (queued : td queue_name ≡ some (text q)) where
    abbrev key : Text
    key = result_key self task_id

    -- A claimed task with its queue that cannot be started, because of its import, its hash or a
    -- receiver of task_started: the exception goes to the caller, and the task is FAILED with that
    -- error behind those it had and the time of its end, in the hash and in the index.
    pub run_task_start_fails :
        (e : Error) (s2 : S)
        → start r self env td s1 ≡ (raise e, s2)
        → let (out, after) = run in
          (out ≡ raise e)
          × (hget r after key status ≡ some (state failed))
          × (hget r after key errors_json
              ≡ some (errors (errors_of (td errors_json) ++ env.describe e ∷ [])))
          × (hget r after key finished_at ≡ some (time failed_at))
          × IndexedAs r self task_id q failed failed_at after
    unfolding run_task
    run_task_start_fails e s2 fails =
        let written =
          record_error_writes r self task_id td failed_at s2 q queued (env.describe e) in
        rw (claimed, read, fails) (refl, written.0, written.1, written.2, written.3)

    module _ (found : Option Bool) (result : TaskResult) (s2 : S)
        (begun : start r self env td s1 ≡ (ok (found, result), s2)) where
      -- A claimed task with its queue that starts, and whose function raises: the task is FAILED with that
      -- error behind those that it had when it was claimed, and the time of its end, in the hash and in
      -- the index, and the run returns what is then reported.
      pub run_task_body_fails :
          (path : Value) (e : Error) (s3 : S)
          → td task_path ≡ some path
          → env.call
              (text_of path)
              (json_or (td args_json) (codes "[]"))
              (json_or (td kwargs_json) (codes "{}"))
              (context_of (wants_context found (td takes_context)) result)
              s2
            ≡ (raise e, s3)
          → let after = execute r (record_error self task_id td (env.describe e) failed_at) s3 in
            (run ≡ unwrap (report r self env task_id after))
            × (hget r after key status ≡ some (state failed))
            × (hget r after key errors_json
                ≡ some (errors (errors_of (td errors_json) ++ env.describe e ∷ [])))
            × (hget r after key finished_at ≡ some (time failed_at))
            × IndexedAs r self task_id q failed failed_at after
      unfolding run_task body failed_with
      run_task_body_fails path e s3 named called =
          let written =
            record_error_writes r self task_id td failed_at s3 q queued (env.describe e) in
          rw (claimed, read, begun, named, called)
            (refl, written.0, written.1, written.2, written.3)

      -- A claimed task with its queue that starts and whose function returns, and an exception after the
      -- task was stored as SUCCESSFUL, of a receiver of task_finished or of the reading back: where the
      -- task was stored with a queue when its function returned, it is FAILED in the end, with that error
      -- behind those that it then had, and the time of the failure, in the hash and in the index of that
      -- queue, and the run returns what is then reported.
      pub run_task_report_fails :
          (path : Value) (value : Text) (s3 s4 : S) (h : Hash) (queue : Text) (e : Error)
          → td task_path ≡ some path
          → env.call
              (text_of path)
              (json_or (td args_json) (codes "[]"))
              (json_or (td kwargs_json) (codes "{}"))
              (context_of (wants_context found (td takes_context)) result)
              s2
            ≡ (ok value, s3)
          → r.hgetall s3 key ≡ some h
          → h queue_name ≡ some (text queue)
          → report r self env task_id (execute r (record_success self task_id td value ended_at) s3)
            ≡ (raise e, s4)
          → (after : S) × (run ≡ unwrap (report r self env task_id after))
            × (hget r after key status ≡ some (state failed))
            × (hget r after key errors_json
                ≡ some (errors (errors_of (h errors_json) ++ env.describe e ∷ [])))
            × (hget r after key finished_at ≡ some (time failed_at))
            × IndexedAs r self task_id queue failed failed_at after
      unfolding run_task body failed_with
      run_task_report_fails path value s3 s4 h queue e named called stored kept raises =
          let s5 = execute r (record_success self task_id td value ended_at) s3 in
          let refreshed : Hash = hash_or_empty (r.hgetall s5 key) in
          let read_back =
            ap hash_or_empty (hgetall-record_success r self task_id td ended_at s3 value) in
          let of_queue : refreshed queue_name ≡ some (text queue) =
            ap (λ (g : Hash). g queue_name) read_back ∙ rw stored kept in
          let of_errors : refreshed errors_json ≡ h errors_json =
            ap (λ (g : Hash). g errors_json) read_back ∙ rw stored refl in
          let written =
            record_error_writes r self task_id refreshed failed_at s4 queue of_queue
              (env.describe e) in
          (
            execute r (record_error self task_id refreshed (env.describe e) failed_at) s4,
            rw (claimed, read, begun, named, called, raises),
            written.0,
            written.1 ∙ ap (λ o. some (errors (errors_of o ++ env.describe e ∷ []))) of_errors,
            written.2,
            written.3,
          )

      -- A claimed task with its queue that starts, whose function returns, and whose report goes through:
      -- the run returns the reported result, and before the report the task was stored as SUCCESSFUL with
      -- its return value and the time of its end, in the hash and in the index.
      pub run_task_succeeds :
          (path : Value) (value : Text) (s3 s4 : S) (fr : TaskResult)
          → td task_path ≡ some path
          → env.call
              (text_of path)
              (json_or (td args_json) (codes "[]"))
              (json_or (td kwargs_json) (codes "{}"))
              (context_of (wants_context found (td takes_context)) result)
              s2
            ≡ (ok value, s3)
          → report r self env task_id (execute r (record_success self task_id td value ended_at) s3)
            ≡ (ok fr, s4)
          → let after = execute r (record_success self task_id td value ended_at) s3 in
            (run ≡ (ok (some fr), s4))
            × (hget r after key status ≡ some (state successful))
            × (hget r after key return_value_json ≡ some (text value))
            × (hget r after key finished_at ≡ some (time ended_at))
            × IndexedAs r self task_id q successful ended_at after
      unfolding run_task body
      run_task_succeeds path value s3 s4 fr named called reported =
          let written = hgetall-record_success r self task_id td ended_at s3 value in
          (
            rw (claimed, read, begun, named, called, reported),
            rw written,
            rw written,
            rw written,
            record_success-IndexedAs r self task_id td ended_at s3 q queued value,
          )
