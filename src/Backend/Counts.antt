-- ===== src/Backend/Counts.antt =====
-- The counts per status by a pass over the stored results, and the queue statistics (backends.py,
-- _waiting_since, _scan_status_counts, get_queue_stats).
pub mod Scanned
use django_tasks_redis.Prelude.{
  ℕ, ◌+◌, ◌-◌, Bool, true, false, not, ◌&&◌, Option, none, some, List, [], ◌∷◌, Text, text_eq, ltb,
  Result, ok, raise, if◌then◌else◌,
}
use django_tasks_redis.Prelude.Checked.{◌>>=◌}
use django_tasks_redis.Task.{
  Hash, Value, Status, ready, running, successful, failed, status, status_eq, queue_name,
  enqueued_at, run_after, has_status, text_of,
}
use django_tasks_redis.Backend.Data.{datetime_of}

-- `run_after is not None and (enqueued_at is None or run_after > enqueued_at)`
abbrev pub later_of : Option ℕ → Option ℕ → Option ℕ
later_of enqueued none = enqueued
later_of none (some due) = some due
later_of (some t) (some due) = if ltb t due then some due else some t

-- _waiting_since
unfoldable pub waiting_since : Hash → Result (Option ℕ)
waiting_since task_data = do
  enqueued ← datetime_of (task_data enqueued_at)
  due ← datetime_of (task_data run_after)
  ok (later_of enqueued due)

-- What a scan has counted so far.
pub record Tally : Type 0 where
  pub counts : Status → ℕ
  pub pending : ℕ
  pub oldest : Option ℕ
  pub newest : Option ℕ

abbrev pub zero_tally : Tally
zero_tally = record { counts = λ st. 0; pending = 0; oldest = none; newest = none }

abbrev pub earliest : Option ℕ → ℕ → Option ℕ
earliest none t = some t
earliest (some o) t = if ltb t o then some t else some o

abbrev pub latest : Option ℕ → ℕ → Option ℕ
latest none t = some t
latest (some o) t = if ltb o t then some t else some o

-- A filter by queue, where the empty name is every queue.
abbrev pub in_queue : Text → Hash → Bool
in_queue [] task_data = true
in_queue (c ∷ q) task_data = elim (task_data queue_name) [
  | none ↦ false
  | some v ↦ text_eq (text_of v) (c ∷ q)
]

-- `counts[status] += 1`, for a status that is counted
abbrev pub count_status : Option Value → Tally → Tally
count_status v tally = record tally {
  counts = λ st. (if has_status v st then 1 else 0) + tally.counts st;
}

-- A READY task, by the time it started waiting.
count_pending : Option ℕ → ℕ → Tally → Tally
count_pending none now tally = record tally { pending = tally.pending + 1 }
count_pending (some t) now tally = if ltb now t then tally else record tally {
  pending = tally.pending + 1;
  oldest = earliest tally.oldest t;
  newest = latest tally.newest t;
}

count_waiting : Result (Option ℕ) → ℕ → Tally → Result Tally
unfolding count_pending
count_waiting (raise e) now tally = raise e
count_waiting (ok since) now tally = ok (count_pending since now tally)

-- The body of the loop.
scan_task : Text → ℕ → Hash → Tally → Result Tally
unfolding count_waiting
scan_task queue now task_data tally =
    let counted = count_status (task_data status) tally in
    if in_queue queue task_data
    then if has_status (task_data status) ready
      then count_waiting (waiting_since task_data) now counted
      else ok counted
    else ok tally

scan_from : Text → ℕ → List Hash → Tally → Result Tally
unfolding scan_task
scan_from queue now [] tally = ok tally
scan_from queue now (task_data ∷ tasks) tally = do
  next ← scan_task queue now task_data tally
  scan_from queue now tasks next

-- _scan_status_counts; `tasks` is what iter_task_data yields.
unfoldable pub scan_status_counts : Text → ℕ → List Hash → Result Tally
unfolding scan_from
scan_status_counts queue now tasks = scan_from queue now tasks zero_tally

pub record QueueStats : Type 0 where
  pub pending_count : ℕ
  pub running_count : ℕ
  pub successful_count : ℕ
  pub failed_count : ℕ
  pub delayed_count : ℕ
  pub oldest_pending_waiting_since : Option ℕ
  pub newest_pending_waiting_since : Option ℕ

-- get_queue_stats, from the counts; the subtraction is `max(ready_count - pending_count, 0)`.
unfoldable pub queue_stats : Tally → QueueStats
queue_stats tally = record {
  pending_count = tally.pending;
  running_count = tally.counts running;
  successful_count = tally.counts successful;
  failed_count = tally.counts failed;
  delayed_count = tally.counts ready - tally.pending;
  oldest_pending_waiting_since = tally.oldest;
  newest_pending_waiting_since = tally.newest;
}
