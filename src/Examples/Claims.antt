-- ===== src/Examples/Claims.antt =====
-- The theorems on claims, at one stored task.
use django_tasks_redis.Prelude.{◌≡◌, refl, true, none, some, [], ◌∷◌, ◌++◌, ok}
use django_tasks_redis.Task.{
  ready, running, failed, state, text, time, ids, status, last_attempted_at, started_at,
  worker_ids_json, errors_json, finished_at, errors, worker_ids_of, errors_of,
}
use django_tasks_redis.Redis.{hget}
use django_tasks_redis.Redis.Memory.{memory}
use django_tasks_redis.Backend.Config.{result_key}
use django_tasks_redis.Backend.Index.State.{IndexedAs}
use django_tasks_redis.Backend.Claim.{claim_task}
use django_tasks_redis.Backend.Claim.Outcome.{claimed_store}
use django_tasks_redis.Backend.Claim.Claimed.{claim_task_claims}
use django_tasks_redis.Backend.Claim.Race.{race, race_one_winner}
use django_tasks_redis.Backend.Finish.{mark_task_failed, abandoned_path}
use django_tasks_redis.Backend.Finish.Failed.{mark_task_failed_records}
use django_tasks_redis.Examples.{config, id, queue, worker, stored, stored_lem, hash_of}

race_one_winner_example :
    race memory config id ((some worker, 20) ∷ (none, 21) ∷ []) (stored ready (text [])) ≡ (
      1,
      claimed_store memory config id 20
          (stored ready (text []))
          (hash_of ready (text []))
          queue
          worker,
    )
race_one_winner_example =
    race_one_winner memory config id (some worker) 20 ((none, 21) ∷ []) (stored ready (text []))
      (hash_of ready (text [])) queue (stored_lem ready (text [])) refl refl

claim_task_claims_example :
    let (outcome, after) =
      claim_task memory config id (some worker) none 20 (stored ready (text [])) in
    let key = result_key config id in
    (outcome ≡ ok true)
    × (hget memory after key status ≡ some (state running))
    × (hget memory after key last_attempted_at ≡ some (time 20))
    × (hget memory after key started_at ≡ some (time 20))
    × (worker_ids_of (hget memory after key worker_ids_json)
        ≡ worker_ids_of (some (ids [])) ++ worker ∷ [])
    × IndexedAs memory config id queue running 20 after
claim_task_claims_example =
    claim_task_claims memory config id 20 (stored ready (text [])) (hash_of ready (text [])) queue
      (state ready) (some worker) none (stored_lem ready (text [])) refl refl refl

mark_task_failed_records_example :
    let (done, after) = mark_task_failed memory config id worker 20 21 (stored running (text [])) in
    let key = result_key config id in
    (done ≡ true)
    × (hget memory after key status ≡ some (state failed))
    × (hget memory after key errors_json
        ≡ some (
            errors (
              errors_of (some (errors []))
              ++ record { exception_class_path = abandoned_path; traceback = worker } ∷ [])))
    × (hget memory after key finished_at ≡ some (time 21))
    × IndexedAs memory config id queue failed 21 after
mark_task_failed_records_example =
    mark_task_failed_records memory config id worker 20 21 (stored running (text []))
      (hash_of running (text [])) queue (stored_lem running (text [])) refl (state running) refl
      refl
