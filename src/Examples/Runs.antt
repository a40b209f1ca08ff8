-- ===== src/Examples/Runs.antt =====
-- The theorems on runs, at one stored task whose function returns, raises, or cannot be imported.
use django_tasks_redis.Prelude.{
  ◌≡◌, refl, ap, true, false, ◌⊎◌, none, some, [], ◌∷◌, ◌++◌, ok, raise, Text, codes, Result,
}
use django_tasks_redis.Task.{
  Hash, TaskError, ready, running, successful, failed, state, text, time, status, queue_name,
  started_at, worker_ids_json, errors_json, finished_at, errors, errors_of, worker_ids_of, text_of,
  task_path, return_value_json,
}
use django_tasks_redis.TaskResult.{TaskResult}
use django_tasks_redis.Redis.{hget, hset_field, execute}
use django_tasks_redis.Redis.Memory.{Memory, memory}
use django_tasks_redis.Backend.Config.{result_key}
use django_tasks_redis.Backend.Index.State.{IndexedAs}
use django_tasks_redis.Backend.Claim.Claimed.{hgetall-claimed_store}
use django_tasks_redis.Backend.Scripts.{claim_fields}
use django_tasks_redis.Backend.Claim.{claim_task}
use django_tasks_redis.Backend.Claim.Outcome.{claimed_store, claim_task_lem}
use django_tasks_redis.Backend.Data.{data_to_result}
use django_tasks_redis.Backend.Finish.{record_error, record_success}
use django_tasks_redis.Backend.Finish.Written.{hgetall-record_success}
use django_tasks_redis.Backend.Run.{Environment, start, report, run_task, unwrap}
use django_tasks_redis.Backend.Run.Ends.{
  run_task_body_fails, run_task_report_fails, run_task_succeeds,
}
use django_tasks_redis.Backend.Run.Final.{run_task_finishes}
use django_tasks_redis.Examples.{
  config, id, queue, worker, stored, stored_lem, hash_of, environment, returns, boom,
}

abbrev pub before : Memory
before = stored ready (text [])

abbrev claimed : Memory
claimed = claimed_store memory config id 20 before (hash_of ready (text [])) queue worker

abbrev claimed_hash : Hash
claimed_hash f =
    hset_field
      (claim_fields (hash_of ready (text []) started_at) (hash_of ready (text []) worker_ids_json)
        20 worker running)
      f (hash_of ready (text []) f)

claims : claim_task memory config id (some worker) none 20 before ≡ (ok true, claimed)
claims =
    claim_task_lem memory config id 20 before (hash_of ready (text [])) queue (state ready)
      (some worker) none (stored_lem ready (text [])) refl refl

claims-read : memory.hgetall claimed (result_key config id) ≡ some claimed_hash
claims-read =
    hgetall-claimed_store memory config id 20 before (hash_of ready (text [])) queue worker
      (stored_lem ready (text []))

claims-queue : claimed_hash queue_name ≡ some (text queue)
unfolding claim_fields
claims-queue = refl

-- The result that a run starts with.
abbrev first_result : TaskResult
first_result = record {
  id = id;
  status = running;
  enqueued_at = some 10;
  started_at = some 20;
  finished_at = none;
  last_attempted_at = some 20;
  args = codes "[1]";
  kwargs = codes "{}";
  backend = codes "default";
  errors = [];
  worker_ids = worker ∷ [];
  return_value = none;
}

starts :
    (env : Result Text)
    → start memory config (environment env (ok (some false))) claimed_hash claimed
      ≡ (ok (some false, first_result), claimed)
unfolding start data_to_result claim_fields errors_of worker_ids_of
starts env = refl

abbrev fails : Environment Memory
fails = environment (raise boom) (ok (some false))

abbrev described : TaskError
described = record { exception_class_path = codes "builtins.ValueError"; traceback = codes "boom" }

path : claimed_hash task_path ≡ some (text (codes "app.tasks.send"))
unfolding claim_fields
path = refl

run_task_body_fails_example :
    let after = execute memory (record_error config id claimed_hash described 31) claimed in
    let key = result_key config id in
    (run_task memory config fails id (some worker) none 20 30 31 before
      ≡ unwrap (report memory config fails id after))
    × (hget memory after key status ≡ some (state failed))
    × (hget memory after key errors_json
        ≡ some (errors (errors_of (claimed_hash errors_json) ++ described ∷ [])))
    × (hget memory after key finished_at ≡ some (time 31))
    × IndexedAs memory config id queue failed 31 after
run_task_body_fails_example =
    run_task_body_fails memory config fails id (some worker) none 20 30 31 before claimed
      claimed_hash queue claims claims-read claims-queue (some false) first_result claimed
      (starts (raise boom)) (text (codes "app.tasks.send")) boom claimed path refl

abbrev pub succeeded : Memory
succeeded = execute memory (record_success config id claimed_hash (codes "3") 30) claimed

abbrev pub last_result : TaskResult
last_result = record first_result {
  status = successful;
  finished_at = some 30;
  return_value = some (codes "3");
}

reports : report memory config returns id succeeded ≡ (ok last_result, succeeded)
unfolding report data_to_result claim_fields errors_of worker_ids_of text_of
reports =
    rw (hgetall-record_success memory config id claimed_hash 30 claimed (codes "3"), claims-read)
      refl

-- A receiver of task_finished that raises.
abbrev misreports : Environment Memory
misreports = record returns { task_finished = λ result s. (raise boom, s) }

misreported : report memory config misreports id succeeded ≡ (raise boom, succeeded)
unfolding report data_to_result claim_fields errors_of worker_ids_of text_of
misreported =
    rw (hgetall-record_success memory config id claimed_hash 30 claimed (codes "3"), claims-read)
      refl

misreport_starts :
    start memory config misreports claimed_hash claimed ≡ (ok (some false, first_result), claimed)
unfolding start data_to_result claim_fields errors_of worker_ids_of
misreport_starts = refl

run_task_report_fails_example :
    let key = result_key config id in
    (after : Memory) × (run_task memory config misreports id (some worker) none 20 30 31 before
      ≡ unwrap (report memory config misreports id after))
    × (hget memory after key status ≡ some (state failed))
    × (hget memory after key errors_json
        ≡ some (errors (errors_of (claimed_hash errors_json) ++ described ∷ [])))
    × (hget memory after key finished_at ≡ some (time 31))
    × IndexedAs memory config id queue failed 31 after
run_task_report_fails_example =
    run_task_report_fails memory config misreports id (some worker) none 20 30 31 before claimed
      claimed_hash queue claims claims-read claims-queue (some false) first_result claimed
      misreport_starts (text (codes "app.tasks.send")) (codes "3") claimed succeeded claimed_hash
      queue boom path refl claims-read claims-queue misreported

run_task_succeeds_example :
    let after = succeeded in
    (run_task memory config returns id (some worker) none 20 30 31 before
      ≡ (ok (some last_result), succeeded))
    × (hget memory after (result_key config id) status ≡ some (state successful))
    × (hget memory after (result_key config id) return_value_json ≡ some (text (codes "3")))
    × (hget memory after (result_key config id) finished_at ≡ some (time 30))
    × IndexedAs memory config id queue successful 30 after
run_task_succeeds_example =
    run_task_succeeds memory config returns id (some worker) none 20 30 31 before claimed
      claimed_hash queue claims claims-read claims-queue (some false) first_result claimed
      (starts (ok (codes "3"))) (text (codes "app.tasks.send")) (codes "3") claimed succeeded
      last_result path refl reports

pub runs :
    run_task memory config returns id (some worker) none 20 30 31 before
    ≡ (ok (some last_result), succeeded)
runs =
    (run_task_succeeds memory config returns id (some worker) none 20 30 31 before claimed
      claimed_hash queue claims claims-read claims-queue (some false) first_result claimed
      (starts (ok (codes "3"))) (text (codes "app.tasks.send")) (codes "3") claimed succeeded
      last_result path refl reports).0

run_task_finishes_example : (last_result.status ≡ successful) ⊎ (last_result.status ≡ failed)
run_task_finishes_example =
    run_task_finishes memory config returns id (some worker) none 20 30 31 before last_result
      (ap (λ p. p.0) runs)
