-- ===== src/Examples/Workers.antt =====
-- The theorems on the executor and the supervisor.
use django_tasks_redis.Prelude.{
  List, Text, any, select, ◌&&◌, if◌then◌else◌, text_eq, ℕ, ◌≤◌, ◌≡◌, refl, true, false, none, some,
  [], ◌∷◌, ◌++◌, ok, codes, length, all, arith,
}
use django_tasks_redis.Prelude.Int.{pos, negsuc}
use django_tasks_redis.Task.{finished_at, Hash, failed, text, time}
use django_tasks_redis.Redis.Memory.{Memory, memory, empty, apply}
use django_tasks_redis.Backend.Config.{result_key}
use django_tasks_redis.Executor.{
  Surroundings, process_one_task, process_tasks, default_statuses, purge_completed_tasks,
}
use django_tasks_redis.Executor.Processed.{is_finished, process_tasks_within}
use django_tasks_redis.Executor.Purged.{is_taken, purge_deletes}
use django_tasks_redis.Supervisor.ExitCodes.{
  combine_exit_codes, shell_code, combine_exit_codes_crash,
}
use django_tasks_redis.Examples.{config, id, worker, returns, fields_of}
use django_tasks_redis.Examples.Runs.{before, succeeded, last_result, runs}
use django_tasks_redis.Redis.{Key, execute, hset, hset_field}
use django_tasks_redis.Broker.{BrokerMessage, ack}

-- A broker that hands out the one stored task.
abbrev message : BrokerMessage
message = record { id = some id; stream = codes "s"; number = 7; raw = [] }

abbrev hands_out : Surroundings Memory
hands_out = record {
  receive = λ s. (ok (message ∷ []), s);
  is_set = λ s. false;
  times = λ s. (20, 30, 31);
}

within :
    process_tasks memory config returns hands_out worker 1 1 1 before
    ≡ some (ok (last_result ∷ []), execute memory (ack message) succeeded)
unfolding process_tasks process_one_task
within = rw runs

process_tasks_within_example :
    (length (last_result ∷ []) ≤ 1) × (all is_finished (last_result ∷ []) ≡ true)
process_tasks_within_example =
    process_tasks_within memory config returns hands_out worker 1 1 1 before (last_result ∷ [])
      (execute memory (ack message) succeeded) (omega arith) within

-- A task that failed long ago.
abbrev old : Hash
old f = hset_field (fields_of failed (text []) ++ (finished_at, time 5) ∷ []) f none

abbrev kept : Memory
kept =
    apply (hset (result_key config id) (fields_of failed (text []) ++ (finished_at, time 5) ∷ []))
      empty

abbrev now : ℕ
now = 90000000000

-- It and a task that has just failed.
abbrev listed : List (Text × Hash)
listed = (id, old) ∷ (codes "t2", λ f. hset_field ((finished_at, time now) ∷ []) f (old f)) ∷ []

purge_deletes_example :
    let taken = is_taken memory config default_statuses [] now 1 in
    let (out, after) =
      purge_completed_tasks memory config default_statuses [] (pos 1) false now listed kept in
    (out ≡ ok (length (select (λ (item : Text × Hash). taken item.1) listed)))
    × ((k : Key)
        → memory.hgetall after k ≡ (
            if any
              (λ (item : Text × Hash). taken item.1 && text_eq (result_key config item.0) k)
              listed
            then none
            else memory.hgetall kept k))
purge_deletes_example = purge_deletes memory config default_statuses [] now 1 listed kept refl

-- Two workers report, and the third was killed.
combine_exit_codes_crash_example :
    combine_exit_codes (pos 3) (pos 4) (pos 0 ∷ pos 3 ∷ negsuc 8 ∷ pos 4 ∷ [])
    ≡ shell_code (negsuc 8)
combine_exit_codes_crash_example =
    combine_exit_codes_crash (pos 3) (pos 4) (pos 0 ∷ pos 3 ∷ []) (pos 4 ∷ []) (negsuc 8) refl refl
