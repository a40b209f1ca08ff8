-- ===== src/Backend/Index.antt =====
-- The status index: one sorted set per status, backend-wide and per queue (backends.py).
-- `index_status` is the method `_index_status`, `lua_index_status` the function of that name which
-- the Lua scripts share (`_INDEX_STATUS`).
pub mod Effect
pub mod State
use django_tasks_redis.Prelude.{
  ℕ, suc, ◌+◌, ◌-◌, Option, none, some, List, [], ◌∷◌, ◌++◌, Text, if◌then◌else◌, get_or,
}
use django_tasks_redis.Prelude.Int.{ℤ}
use django_tasks_redis.Task.{Status, status_eq, status_index_order}
use django_tasks_redis.Redis.{Key, Command, zadd, zrem, zremrangebyscore}
use django_tasks_redis.Backend.Config.{Config, status_index_keys, status_index_cutoff}

abbrev prune : Key → Option ℤ → List Command
prune key none = []
prune key (some cutoff) = zremrangebyscore key cutoff ∷ []

-- What one key of the status `other` is sent for a task that moves to `status`.
index_entry : Key → Text → Status → Status → ℕ → Option ℤ → List Command
index_entry key task_id other status score cutoff =
    if status_eq other status
    then prune key cutoff ++ zadd key task_id score ∷ []
    else zrem key task_id ∷ []

-- `for position, other in enumerate(STATUS_INDEX_ORDER)`
unfoldable index_from : List Key → ℕ → List Status → Text → Status → ℕ → Option ℤ → List Command
unfolding index_entry
index_from keys position [] task_id status since cutoff = []
index_from keys position (other ∷ others) task_id status since cutoff =
    index_entry (get_or keys position []) task_id other status since cutoff
    ++ (index_entry (get_or keys (4 + position) []) task_id other status since cutoff
        ++ index_from keys (suc position) others task_id status since cutoff)

unfoldable pub index_status : Config → Text → Text → Status → ℕ → ℕ → List Command
unfolding index_from status_index_keys
index_status self task_id queue_name status since now =
    index_from (status_index_keys self (some queue_name)) 0 status_index_order task_id status since
      (status_index_cutoff self status now)

-- `if cutoff ~= '' then ZREMRANGEBYSCORE … end`, and ZADD
lua_add : Key → Text → ℕ → Option ℤ → List Command
lua_add key task_id score none = zadd key task_id score ∷ []
lua_add key task_id score (some cutoff) = zremrangebyscore key cutoff ∷ zadd key task_id score ∷ []

-- The body of the inner loop of the script function.
lua_entry : Key → Text → Status → Status → ℕ → Option ℤ → List Command
unfolding lua_add
lua_entry key task_id status new_status score cutoff =
    if status_eq status new_status then lua_add key task_id score cutoff else zrem key task_id ∷ []

-- `for i, status in ipairs(STATUSES)`: KEYS counts from 1 and starts with the task hash.
lua_index_from : List Key → ℕ → List Status → Text → Status → ℕ → Option ℤ → List Command
unfolding lua_entry
lua_index_from keys i [] task_id new_status score cutoff = []
lua_index_from keys i (status ∷ statuses) task_id new_status score cutoff =
    lua_entry (get_or keys (1 + i - 1) []) task_id status new_status score cutoff
    ++ (lua_entry (get_or keys (5 + i - 1) []) task_id status new_status score cutoff
        ++ lua_index_from keys (suc i) statuses task_id new_status score cutoff)

unfoldable pub lua_index_status : List Key → Text → Status → ℕ → Option ℤ → List Command
unfolding lua_index_from
lua_index_status keys task_id new_status score cutoff =
    lua_index_from keys 1 status_index_order task_id new_status score cutoff
