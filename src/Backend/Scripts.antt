-- ===== src/Backend/Scripts.antt =====
-- The Lua scripts of backends.py, each one atomic step of the server: `_CLAIM_TASK`,
-- `_TRANSITION_TASK_STATUS` and `_INDEX_TASK`. KEYS[1] is the task hash, KEYS[2..9] the index sets.
pub mod Transition
use django_tasks_redis.Prelude.{
  ℕ, suc, Bool, Option, none, some, List, [], ◌∷◌, ◌++◌, Text, if◌then◌else◌, get_or, any, is_some,
}
use django_tasks_redis.Prelude.Int.{ℤ, pos, negsuc}
use django_tasks_redis.Task.{
  Field, Status, Value, Hash, TaskError, status, started_at, last_attempted_at, worker_ids_json,
  state, time, ids, has_status, is_blank, worker_ids_of, status_eq,
}
use django_tasks_redis.Redis.{Key, Command, hset, zrem, Server, execute, hget}
use django_tasks_redis.Backend.Index.{lua_index_status}

started_fields : Option Value → ℕ → List (Field × Value)
started_fields old attempted_at = if is_blank old then (started_at, time attempted_at) ∷ [] else []

worker_fields : Option Value → Text → List (Field × Value)
worker_fields raw [] = []
worker_fields raw (c ∷ cs) = (worker_ids_json, ids (worker_ids_of raw ++ (c ∷ cs) ∷ [])) ∷ []

-- The `fields` that a claim writes, from the fields that it reads.
unfoldable pub claim_fields : Option Value → Option Value → ℕ → Text → Status → List (Field × Value)
unfolding started_fields worker_fields worker_ids_of
claim_fields old_started raw attempted_at worker_id new_status =
    (status, state new_status)
    ∷ (last_attempted_at, time attempted_at)
    ∷ (started_fields old_started attempted_at ++ worker_fields raw worker_id)

unfoldable pub zrem_all : Text → List Key → List Command
zrem_all task_id [] = []
zrem_all task_id (k ∷ ks) = zrem k task_id ∷ zrem_all task_id ks

abbrev pub rest_of : List Key → List Key
rest_of [] = []
rest_of (k ∷ ks) = ks

module _ {S : Type 0} (r : Server S) where
  claim_from :
      Option Value → List Key → ℕ → Text → Status → Text → ℕ → Option ℤ → List Status → S → ℤ × S
  claim_from none keys attempted_at worker_id new_status task_id score cutoff allowed s =
      (negsuc 0, s)
  claim_from (some current) keys attempted_at worker_id new_status task_id score cutoff allowed s =
      let key = get_or keys 0 [] in
      let fields =
        claim_fields (hget r s key started_at) (hget r s key worker_ids_json) attempted_at worker_id
          new_status in
      if any (has_status (some current)) allowed
      then (
        pos 1,
        execute r (hset key fields ∷ lua_index_status keys task_id new_status score cutoff) s,
      )
      else (pos 0, s)

  unfoldable pub claim_script :
      List Key → ℕ → Text → Status → Text → ℕ → Option ℤ → List Status → S → ℤ × S
  unfolding claim_from
  claim_script keys attempted_at worker_id new_status task_id score cutoff allowed s =
      claim_from (hget r s (get_or keys 0 []) status) keys attempted_at worker_id new_status task_id
        score cutoff allowed s

  -- The loop over ARGV[5..]: the first status that matches makes the move.
  transition_from : Option Value → List Key → Status → Text → ℕ → Option ℤ → List Status → S → ℤ × S
  transition_from none keys to_status task_id score cutoff allowed s = (pos 0, s)
  transition_from (some current) keys to_status task_id score cutoff [] s = (pos 0, s)
  transition_from (some current) keys to_status task_id score cutoff (a ∷ allowed) s =
      let rest = transition_from (some current) keys to_status task_id score cutoff allowed s in
      if has_status (some current) a
      then (
        pos 1,
        execute r
            (hset (get_or keys 0 []) ((status, state to_status) ∷ [])
              ∷ lua_index_status keys task_id to_status score cutoff)
            s,
      )
      else rest

  unfoldable pub transition_script :
      List Key → Status → Text → ℕ → Option ℤ → List Status → S → ℤ × S
  unfolding transition_from
  transition_script keys to_status task_id score cutoff allowed s =
      transition_from (hget r s (get_or keys 0 []) status) keys to_status task_id score cutoff
        allowed s

  index_task_from : Option Value → List Key → Text → Status → ℕ → Option ℤ → S → ℤ × S
  unfolding zrem_all
  index_task_from none keys task_id read_status score cutoff s =
      (negsuc 0, execute r (zrem_all task_id (rest_of keys)) s)
  index_task_from (some current) keys task_id read_status score cutoff s =
      if has_status (some current) read_status
      then (pos 1, execute r (lua_index_status keys task_id read_status score cutoff) s)
      else (pos 0, s)

  unfoldable pub index_task_script : List Key → Text → Status → ℕ → Option ℤ → S → ℤ × S
  unfolding index_task_from
  index_task_script keys task_id read_status score cutoff s =
      index_task_from (hget r s (get_or keys 0 []) status) keys task_id read_status score cutoff s
