-- ===== src/Backend/Listing.antt =====
-- Walking the stored tasks (backends.py, iter_task_data, _fetch_task_batch, get_all_tasks and
-- get_distinct_task_values) and deleting several (executor.py, delete_tasks).
pub mod Batched
pub mod Filtered
use django_tasks_redis.Prelude.{
  ℕ, zero, suc, ◌+◌, Bool, true, false, not, ◌&&◌, ◌||◌, Option, none, some, List, [], ◌∷◌, ◌++◌,
  Text, text_eq, ltb, leb, length, any, select, map, if◌then◌else◌,
}
use django_tasks_redis.Prelude.Int.{ℤ, eqb_ℤ}
use django_tasks_redis.Task.{
  level, Field, Hash, Value, Status, time, task_path, status, priority, queue_name, enqueued_at,
  has_status, text_of,
}
use django_tasks_redis.Redis.{Server, srem, execute}
use django_tasks_redis.Backend.Config.{Config, result_key, results_index_key}
use django_tasks_redis.Backend.Queue.{delete_task_data}

abbrev pub found : Text → Option Hash → List (Text × Hash)
found id none = []
found id (some task_data) = (id, task_data) ∷ []

abbrev pub missing : Text → Option Hash → List Text
missing id none = id ∷ []
missing id (some task_data) = []

module _ {S : Type 0} (r : Server S) (self : Config) where
  -- The replies of the pipeline, split into the stored tasks and the expired ids.
  unfoldable pub stored_tasks : List Text → S → List (Text × Hash)
  stored_tasks [] s = []
  stored_tasks (id ∷ task_ids) s =
      found id (r.hgetall s (result_key self id)) ++ stored_tasks task_ids s

  unfoldable pub expired_ids : List Text → S → List Text
  expired_ids [] s = []
  expired_ids (id ∷ task_ids) s =
      missing id (r.hgetall s (result_key self id)) ++ expired_ids task_ids s

  -- _fetch_task_batch
  fetch_task_batch : Bool → List Text → S → List (Text × Hash) × S
  unfolding stored_tasks expired_ids
  fetch_task_batch cleanup task_ids s = (
    stored_tasks task_ids s,
    if cleanup
        then execute r (map (λ id. srem (results_index_key self) id) (expired_ids task_ids s)) s
        else s,
  )

  iter_from : Bool → ℕ → List Text → List Text → S → List (Text × Hash) × S
  unfolding fetch_task_batch
  iter_from cleanup batch_size [] [] s = ([], s)
  iter_from cleanup batch_size [] (id ∷ batch) s = fetch_task_batch cleanup (id ∷ batch) s
  iter_from cleanup batch_size (id ∷ task_ids) batch s =
      let full = batch ++ id ∷ [] in
      let (tasks, s') = fetch_task_batch cleanup full s in
      let (rest, s'') = iter_from cleanup batch_size task_ids [] s' in
      let waiting = iter_from cleanup batch_size task_ids full s in
      if leb batch_size (length full) then (tasks ++ rest, s'') else waiting

  -- iter_task_data, run to its end; `task_ids` is what SSCAN gives.
  unfoldable pub iter_task_data : Bool → ℕ → List Text → S → List (Text × Hash) × S
  unfolding iter_from
  iter_task_data cleanup batch_size task_ids s = iter_from cleanup batch_size task_ids [] s

  -- delete_tasks
  unfoldable pub delete_tasks : List Text → ℕ → S → ℕ × S
  delete_tasks [] deleted s = (deleted, s)
  delete_tasks (id ∷ task_ids) deleted s =
      let (gone, s') = delete_task_data r self id s in
      delete_tasks task_ids (if gone then deleted + 1 else deleted) s'

-- The filters of get_all_tasks; an empty text filters nothing.
pub record Filters : Type 0 where
  pub queue : Text
  pub wanted_status : Option Status
  pub path : Text
  -- an integer, given as such or as its decimal text
  pub wanted_priority : Option ℤ

-- `task_data.get(field) != text`
abbrev pub differs : Option Value → Text → Bool
differs none wanted = true
differs (some v) wanted = not (text_eq (text_of v) wanted)

abbrev skips_text : Text → Option Value → Bool
skips_text [] v = false
skips_text (c ∷ cs) v = differs v (c ∷ cs)

abbrev skips_status : Option Status → Option Value → Bool
skips_status none v = false
skips_status (some st) v = not (has_status v st)

-- The stored text of a level is the decimal one, as str() of the wanted number is.
abbrev is_level : Option Value → ℤ → Bool
is_level (some (level n)) wanted = eqb_ℤ n wanted
is_level _ wanted = false

abbrev skips_priority : Option ℤ → Option Value → Bool
skips_priority none v = false
skips_priority (some wanted) v = not (is_level v wanted)

-- A task that the loop appends.
unfoldable pub matches : Filters → Hash → Bool
matches filters task_data = not (
    skips_text filters.queue (task_data queue_name)
    || skips_status filters.wanted_status (task_data status)
    || skips_text filters.path (task_data task_path)
    || skips_priority filters.wanted_priority (task_data priority))

-- The sort key; a task with no time of its own comes last.
abbrev pub enqueued_key : Hash → ℕ
enqueued_key task_data = elim (task_data enqueued_at) [
  | none ↦ 0
  | some v ↦ elim v [ time t ↦ suc t | _ ↦ 0 ]
]

insert_desc : Hash → List Hash → List Hash
insert_desc task_data [] = task_data ∷ []
insert_desc task_data (t ∷ ts) =
    let rest = insert_desc task_data ts in
    if leb (enqueued_key t) (enqueued_key task_data) then task_data ∷ t ∷ ts else t ∷ rest

-- tasks.sort(key=…, reverse=True), which keeps the order of equal keys
sort_desc : List Hash → List Hash
unfolding insert_desc
sort_desc [] = []
sort_desc (t ∷ ts) = insert_desc t (sort_desc ts)

abbrev pub take : ℕ → List Hash → List Hash
take zero ts = []
take (suc n) [] = []
take (suc n) (t ∷ ts) = t ∷ take n ts

abbrev pub drop : ℕ → List Hash → List Hash
drop zero ts = ts
drop (suc n) [] = []
drop (suc n) (t ∷ ts) = drop n ts

-- get_all_tasks, of the tasks that iter_task_data yields: a page, and the number of all that match.
unfoldable pub get_all_tasks : Filters → ℕ → ℕ → List (Text × Hash) → List Hash × ℕ
unfolding sort_desc
get_all_tasks filters offset limit stored =
    let tasks =
      sort_desc (select (matches filters) (map (λ (item : Text × Hash). item.1) stored)) in
    (take limit (drop offset tasks), length tasks)
