-- ===== src/Examples/Index.antt =====
-- The theorems on the status index and the counts, at one stored task.
use django_tasks_redis.Prelude.{
  if◌then◌else◌, ◌+◌, ◌≡◌, refl, true, none, some, List, [], ◌∷◌, ok, text_eq, length, select,
}
use django_tasks_redis.Task.{
  Hash, Status, ready, running, text, time, status_eq, deserialize_datetime,
}
use django_tasks_redis.Redis.{execute}
use django_tasks_redis.Redis.Memory.{memory, empty}
use django_tasks_redis.Backend.Config.{
  result_key, index_key, status_index_keys, status_index_cutoff,
}
use django_tasks_redis.Backend.Index.{index_status, lua_index_status}
use django_tasks_redis.Backend.Index.Effect.{
  moved, index_status-eq-lua_index_status, zscore-index_status,
}
use django_tasks_redis.Backend.Counts.{waiting_since, Tally, scan_status_counts, queue_stats}
use django_tasks_redis.Backend.Counts.Scanned.{matches, is_due, in_order, scan_status_counts_add_up}
use django_tasks_redis.Examples.{config, id, queue, hash_of}

index_status-eq-lua_index_status_example :
    lua_index_status
      (result_key config id ∷ status_index_keys config (some queue))
      id
      running
      20
      (status_index_cutoff config running 21)
    ≡ index_status config id queue running 20 21
index_status-eq-lua_index_status_example =
    index_status-eq-lua_index_status config id queue running 20 21

zscore-index_status_example :
    memory.zscore
      (execute memory (index_status config id queue running 20 21) empty)
      (index_key config (some queue) running)
      id
    ≡ moved
        (text_eq queue queue)
        true
        (text_eq id id)
        20
        (status_index_cutoff config running 21)
        none
zscore-index_status_example =
    zscore-index_status memory config id queue running 20 21 empty (some queue) running id

-- A READY task that is due, one that is not, and one that runs.
abbrev tasks : List Hash
tasks = hash_of ready (text []) ∷ hash_of ready (time 900) ∷ hash_of running (text []) ∷ []

abbrev tally : Tally
tally = record {
  counts = λ st.
      (if status_eq running st then 1 else 0)
      + ((if status_eq ready st then 1 else 0) + ((if status_eq ready st then 1 else 0) + 0));
  pending = 1;
  oldest = some 10;
  newest = some 10;
}

scans : scan_status_counts [] 100 tasks ≡ ok tally
unfolding scan_status_counts waiting_since deserialize_datetime
scans = refl

scan_status_counts_add_up_example :
    let stats = queue_stats tally in
    ((st : Status) → tally.counts st ≡ length (select (matches [] st) tasks))
    × (stats.pending_count + stats.delayed_count ≡ tally.counts ready)
    × (is_due stats.newest_pending_waiting_since 100 ≡ true)
    × (in_order stats.oldest_pending_waiting_since stats.newest_pending_waiting_since ≡ true)
scan_status_counts_add_up_example = scan_status_counts_add_up [] 100 tasks tally scans
