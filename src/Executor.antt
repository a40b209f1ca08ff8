-- ===== src/Executor.antt =====
-- The functions that workers and commands call (executor.py): process one task, process several, run
-- a task by its id, purge the completed ones.
pub mod Processed
pub mod Purged
use django_tasks_redis.Prelude.{
  ℕ, zero, suc, ◌+◌, ◌*◌, Bool, true, false, not, ◌&&◌, ◌||◌, Option, none, some, List, [], ◌∷◌,
  ◌++◌, Text, text_eq, any, ltb, leb, length, Result, ok, raise, value_error, Exec, ◌>>=◌,
  if◌then◌else◌,
}
use django_tasks_redis.Prelude.Int.{ℤ, pos, negsuc, ltb_ℤ, sub_ℕ}
use django_tasks_redis.Task.{
  Hash, Value, Status, ready, successful, failed, status, task_path, finished_at, has_status,
  text_of,
}
use django_tasks_redis.TaskResult.{TaskResult}
use django_tasks_redis.Redis.{Server, execute}
use django_tasks_redis.Backend.Config.{Config, usec}
use django_tasks_redis.Backend.Data.{datetime_of}
use django_tasks_redis.Backend.Queue.{delete_task_data}
use django_tasks_redis.Backend.Run.{Environment, run_task}
use django_tasks_redis.Broker.{BrokerMessage, ack, id_text}

-- What a loop reads from outside while it runs: the messages that the broker's receive gives for one
-- message, whether the stop event is set, and the times that a run of a task reads.
pub record Surroundings (S : Type 0) : Type 0 where
  pub receive : Exec S (List BrokerMessage)
  pub is_set : S → Bool
  pub times : S → ℕ × ℕ × ℕ

module _ {S : Type 0} (r : Server S) (self : Config) (env : Environment S)
    (outside : Surroundings S) (worker_id : Text) where
  pub run_message : BrokerMessage → Exec S (Option TaskResult)
  run_message message s =
      let (claimed_at, finished, failed_at) = outside.times s in
      run_task r self env (id_text message.id) (some worker_id) none claimed_at finished failed_at s

  -- An exception leaves the message pending; anything else acknowledges it.
  pub acknowledged : BrokerMessage → Result (Option TaskResult) × S → Result (Option TaskResult) × S
  acknowledged message (raise e, s) = (raise e, s)
  acknowledged message (ok result, s) = (ok result, execute r (ack message) s)

  -- What a turn of the loop makes of a reply of the broker and of a run; `again` is the next turn.
  tried :
      (S → Option (Result (Option TaskResult) × S))
      → Result (Option TaskResult) × S
      → Option (Result (Option TaskResult) × S)
  tried again (raise e, s) = some (raise e, s)
  tried again (ok (some result), s) = some (ok (some result), s)
  tried again (ok none, s) = again s

  received :
      (S → Option (Result (Option TaskResult) × S))
      → Result (List BrokerMessage) × S
      → Option (Result (Option TaskResult) × S)
  unfolding run_message acknowledged tried
  received again (raise e, s) = some (raise e, s)
  received again (ok [], s) = some (ok none, s)
  received again (ok (message ∷ _), s) = tried again (acknowledged message (run_message message s))

  -- process_one_task, none if the fuel, one for each message that was lost to another worker, ran out.
  unfoldable pub process_one_task : ℕ → S → Option (Result (Option TaskResult) × S)
  unfolding received
  process_one_task zero s = none
  process_one_task (suc fuel) s = received (λ s'. process_one_task fuel s') (outside.receive s)

  -- What a turn of process_tasks makes of the reply of process_one_task.
  processed :
      ℕ
      → List TaskResult
      → (List TaskResult → S → Option (Result (List TaskResult) × S))
      → Option (Result (Option TaskResult) × S)
      → Option (Result (List TaskResult) × S)
  processed max_tasks results again none = none
  processed max_tasks results again (some (raise e, s)) = some (raise e, s)
  processed max_tasks results again (some (ok none, s)) = some (ok results, s)
  processed max_tasks results again (some (ok (some result), s)) =
      let results' = results ++ result ∷ [] in
      let next = again results' s in
      if ltb 0 max_tasks && leb max_tasks (length results') then some (ok results', s) else next

  process_from : ℕ → ℕ → ℕ → List TaskResult → S → Option (Result (List TaskResult) × S)
  unfolding processed
  process_from tries zero max_tasks results s = none
  process_from tries (suc fuel) max_tasks results s =
      let next =
        λ (results' : List TaskResult) (s' : S). process_from tries fuel max_tasks results' s' in
      if outside.is_set s
      then some (ok results, s)
      else processed max_tasks results next (process_one_task tries s)

  -- process_tasks, none if the fuel, one for each turn of the loop, ran out.
  unfoldable pub process_tasks : ℕ → ℕ → ℕ → S → Option (Result (List TaskResult) × S)
  unfolding process_from
  process_tasks tries fuel max_tasks s = process_from tries fuel max_tasks [] s

  -- run_task_by_id
  unfoldable pub run_task_by_id : Text → Bool → Exec S (Option TaskResult)
  run_task_by_id id allow_retry s =
      let (claimed_at, finished, failed_at) = outside.times s in
      run_task r self env id (some worker_id)
        (some (ready ∷ (if allow_retry then failed ∷ [] else []))) claimed_at finished failed_at s

-- The default of `statuses`.
abbrev pub default_statuses : List Status
default_statuses = successful ∷ failed ∷ []

-- `task_path and task_data.get("task_path") != task_path`
abbrev pub other_path : Text → Hash → Bool
other_path [] task_data = false
other_path (c ∷ path) task_data =
    not (elim (task_data task_path) [ none ↦ false | some v ↦ text_eq (text_of v) (c ∷ path) ])

-- `finished_at and finished_at < cutoff`
abbrev pub is_before : Option ℕ → ℤ → Bool
is_before none cutoff = false
is_before (some t) cutoff = ltb_ℤ (pos t) cutoff

abbrev decide_age : Result (Option ℕ) → ℤ → Result Bool
decide_age (raise e) cutoff = raise e
decide_age (ok t) cutoff = ok (is_before t cutoff)

-- Whether the loop of purge_completed_tasks counts a task.
unfoldable pub is_purged : List Status → Text → ℤ → Hash → Result Bool
is_purged statuses path cutoff task_data =
    if not (any (has_status (task_data status)) statuses)
    then ok false
    else if other_path path task_data
    then ok false
    else decide_age (datetime_of (task_data finished_at)) cutoff

module _ {S : Type 0} (r : Server S) (self : Config) (statuses : List Status) (path : Text) where
  purge_one : Bool → Text → Bool → S → ℕ × S
  purge_one dry_run id false s = (0, s)
  purge_one true id true s = (1, s)
  purge_one false id true s = (1, (delete_task_data r self id s).1)

  purge_each : Bool → ℤ → List (Text × Hash) → ℕ → Exec S ℕ
  unfolding purge_one
  purge_each dry_run cutoff [] deleted s = (ok deleted, s)
  purge_each dry_run cutoff ((id, task_data) ∷ tasks) deleted s =
      elim (is_purged statuses path cutoff task_data) [
        | raise e ↦ (raise e, s)
        | ok old ↦
            let (n, s') = purge_one dry_run id old s in
            purge_each dry_run cutoff tasks (deleted + n) s'
      ]

  -- purge_completed_tasks; `tasks` is what iter_task_data yields.
  unfoldable pub purge_completed_tasks : ℤ → Bool → ℕ → List (Text × Hash) → Exec S ℕ
  unfolding purge_each
  purge_completed_tasks (negsuc _) dry_run now tasks s = (raise value_error, s)
  purge_completed_tasks (pos days) dry_run now tasks s =
      purge_each dry_run (sub_ℕ now (days * 86400 * usec)) tasks 0 s
