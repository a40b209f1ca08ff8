-- ===== src/Examples/Interleaving.antt =====
-- The theorems on several clients, and on the way of one task.
use django_tasks_redis.Prelude.{
  ℕ, ◌≡◌, refl, true, false, none, some, List, [], ◌∷◌, ◌++◌, codes, ok, arith,
}
use django_tasks_redis.Prelude.Int.{pos}
use django_tasks_redis.Task.{ready, failed, text}
use django_tasks_redis.TaskResult.{TaskResult}
use django_tasks_redis.Redis.Memory.{memory, empty}
use django_tasks_redis.Backend.Claim.{claim_task}
use django_tasks_redis.Backend.Fetch.{get_result}
use django_tasks_redis.Backend.Fetch.Stored.{get_result-enqueue}
use django_tasks_redis.Backend.Queue.{enqueue}
use django_tasks_redis.Broker.{resolve}
use django_tasks_redis.Interleaved.{Write, perform_all}
use django_tasks_redis.Interleaved.Board.{board, advance_all}
use django_tasks_redis.Interleaved.Consistent.{Consistent}
use django_tasks_redis.Interleaved.Preserved.{perform_all-Consistent}
use django_tasks_redis.Interleaved.Refined.{perform_all-advance_all}
use django_tasks_redis.Journey.{enqueue_reaches_worker, message_of, entry_of, its_stream}
use django_tasks_redis.Examples.{config, id, queue, worker, hash_of}
use django_tasks_redis.Examples.Producers.{task, args, kwargs, enqueued}

-- Two workers claim a task; one of them finishes it, while an operator deletes it.
abbrev writes : List Write
writes =
    Write.submit (task none) id args kwargs 10
    ∷ Write.claim id queue worker 20 (ready ∷ [])
    ∷ Write.claim id queue (codes "w2") 21 (ready ∷ [])
    ∷ Write.finish_successful id (hash_of ready (text [])) (codes "3") 30
    ∷ Write.prune_index none ready (pos 5)
    ∷ Write.remove id (some queue)
    ∷ Write.transition id queue failed 40 (ready ∷ [])
    ∷ []

perform_all-advance_all_example :
    let (replies, s') = perform_all memory config writes empty in
    (replies, board memory config s') ≡ advance_all writes (board memory config empty)
perform_all-advance_all_example = perform_all-advance_all memory config writes empty

empty-Consistent : Consistent memory config empty
empty-Consistent m tu = refl

perform_all-Consistent_example : Consistent memory config (perform_all memory config writes empty).1
perform_all-Consistent_example = perform_all-Consistent memory config writes empty empty-Consistent

enqueue_reaches_worker_example :
    let stream = its_stream memory config (task none) id args kwargs 10 false empty in
    let entry = entry_of memory config (task none) id args kwargs 10 false empty in
    let message = message_of memory config (task none) id args kwargs 10 false empty in
    (i : ℕ) × (memory.xrange (enqueued none) stream ≡ memory.xrange empty stream ++ entry i ∷ [])
    × (resolve memory config stream (entry i) 20 (enqueued none)
        ≡ (ok (some (message i)), enqueued none))
    × ((claim_task memory config id (some worker) none 20 (enqueued none)).0 ≡ ok true)
enqueue_reaches_worker_example =
    enqueue_reaches_worker memory config (task none) id args kwargs 10 false empty 20 (some worker)
      (omega arith) refl

get_result-enqueue_example :
    let (returned, after) =
      enqueue memory config false (task none) (ok (args, kwargs)) id 10 empty in
    let result : TaskResult = record {
      id = id;
      status = ready;
      enqueued_at = some 10;
      started_at = none;
      finished_at = none;
      last_attempted_at = none;
      args = args;
      kwargs = kwargs;
      backend = codes "default";
      errors = [];
      worker_ids = [];
      return_value = none;
    } in
    (returned ≡ ok result)
    × (get_result memory config (λ path. ok (some false)) id after ≡ ok result)
get_result-enqueue_example =
    get_result-enqueue memory config (λ path. ok (some false)) (task none) id args kwargs 10 false
      empty (some false) refl
