-- ===== src/Executor/Purged.antt =====
-- A purge deletes what a dry run counts (executor.py, purge_completed_tasks).
use django_tasks_redis.Prelude.{
  not, ◌&&◌, ◌||◌, any, all, length, select, ltb, leb, ap, arith, Bool-cases, Option-cases, ℕ, ◌+◌,
  ◌*◌, ◌≡◌, refl, ◌∙◌, Bool, true, false, Option, none, some, List, [], ◌∷◌, Text, Result, ok,
  raise, Error, sym, ◌⊎◌, text_eq, if◌then◌else◌, inl, inr,
}
use django_tasks_redis.Prelude.Int.{ℤ, pos, negsuc, sub_ℕ}
use django_tasks_redis.Task.{
  Hash, Status, Value, text, state, level, time, ids, errors, text_of, has_status, status,
  task_path, finished_at, deserialize_datetime,
}
use django_tasks_redis.Backend.Data.{datetime_of}
use django_tasks_redis.Redis.{Key, Server, execute, hgetall-execute}
use django_tasks_redis.Backend.Config.{Config, usec, result_key, status_index_keys}
use django_tasks_redis.Backend.Queue.{delete_task_data, delete_pipeline}
use django_tasks_redis.Executor.{
  other_path, decide_age, is_purged, purge_one, purge_each, purge_completed_tasks,
}

verdict-cases : (m : Result Bool) → ((e : Error) × (m ≡ raise e)) ⊎ ((b : Bool) × (m ≡ ok b))
verdict-cases (raise e) = inl (e, refl)
verdict-cases (ok b) = inr (b, refl)

-- The path that is asked for, an empty one asking for none.
abbrev pub on_path : Text → Option Value → Bool
on_path [] v = true
on_path (c ∷ cs) none = false
on_path (c ∷ cs) (some v) = text_eq (text_of v) (c ∷ cs)

-- A time that is followed by the age before now.
abbrev pub finished_before : ℕ → ℕ → Option Value → Bool
finished_before age now (some (time t)) = ltb (t + age) now
finished_before age now _ = false

-- Blank, or a time.
abbrev pub is_readable : Option Value → Bool
is_readable none = true
is_readable (some (text [])) = true
is_readable (some (time t)) = true
is_readable (some _) = false

not-not : (b : Bool) → not (not b) ≡ b
not-not true = refl
not-not false = refl

not-other_path : (path : Text) (h : Hash) → not (other_path path h) ≡ on_path path (h task_path)
not-other_path [] h = refl
not-other_path (c ∷ cs) h = elim (Option-cases (h task_path)) [
  | inl absent ↦ rw absent refl
  | inr (v, given) ↦ rw given (not-not (text_eq (text_of v) (c ∷ cs)))
]

decide_age_lem :
    (age now : ℕ) (v : Option Value)
    → is_readable v ≡ true
    → decide_age (datetime_of v) (sub_ℕ now age) ≡ ok (finished_before age now v)
unfolding deserialize_datetime
decide_age_lem age now none readable = refl
decide_age_lem age now (some (text [])) readable = refl
decide_age_lem age now (some (text (c ∷ cs))) readable = cc
decide_age_lem age now (some (time t)) readable = elim (Bool-cases (leb age now)) [
  | inl late ↦ rw late (ap ok (ground (arith, late)))
  | inr early ↦ rw early (ap ok (ground (arith, early)))
]
decide_age_lem age now (some (state st)) readable = cc
decide_age_lem age now (some (level n)) readable = cc
decide_age_lem age now (some (ids l)) readable = cc
decide_age_lem age now (some (errors l)) readable = cc

if_or :
    {A : Type 0} (b c : Bool) (o : Option A)
    → (if b then none else if c then none else o) ≡ (if c || b then none else o)
if_or true true o = refl
if_or true false o = refl
if_or false true o = refl
if_or false false o = refl

module _ {S : Type 0} (r : Server S) (self : Config) where
  -- A deletion leaves every hash but the task's.
  hgetall-delete_pipeline :
      (id : Text) (queue : Option Text) (s : S) (k : Key)
      → r.hgetall (execute r (delete_pipeline self id queue) s) k
        ≡ (if text_eq (result_key self id) k then none else r.hgetall s k)
  unfolding delete_pipeline status_index_keys
  hgetall-delete_pipeline id none s k = hgetall-execute r _ s k
  hgetall-delete_pipeline id (some q) s k = hgetall-execute r _ s k

  hgetall-delete_task_data :
      (id : Text) (s : S) (k : Key)
      → r.hgetall (delete_task_data r self id s).1 k
        ≡ (if text_eq (result_key self id) k then none else r.hgetall s k)
  unfolding delete_task_data
  hgetall-delete_task_data id s k = hgetall-delete_pipeline id _ s k

  module _ (statuses : List Status) (path : Text) (cutoff : ℤ) where
    purge_each_dry :
        (tasks : List (Text × Hash)) (deleted : ℕ) (s s' : S)
        → ((purge_each r self statuses path true cutoff tasks deleted s).1 ≡ s)
          × ((purge_each r self statuses path true cutoff tasks deleted s).0
              ≡ (purge_each r self statuses path false cutoff tasks deleted s').0)
    unfolding purge_each purge_one
    purge_each_dry [] deleted s s' = (refl, refl)
    purge_each_dry ((id, h) ∷ tasks) deleted s s' =
        elim (verdict-cases (is_purged statuses path cutoff h)) [
          | inl (e, bad) ↦ rw (purge_each, bad) (refl, refl)
          | inr (false, keep) ↦ rw (purge_each, keep) (purge_each_dry tasks (deleted + 0) s s')
          | inr (true, drop) ↦
              rw (purge_each, drop)
                (purge_each_dry tasks (deleted + 1) s (delete_task_data r self id s').1)
        ]

  module _ (statuses : List Status) (path : Text) (now : ℕ) where
    -- A dry run writes nothing, and tells what the purge itself would tell, its exceptions included;
    -- a negative age is refused before anything is read.
    pub purge_dry_run :
        (days : ℤ) (tasks : List (Text × Hash)) (s : S)
        → ((purge_completed_tasks r self statuses path days true now tasks s).1 ≡ s)
          × ((purge_completed_tasks r self statuses path days true now tasks s).0
              ≡ (purge_completed_tasks r self statuses path days false now tasks s).0)
    unfolding purge_completed_tasks
    purge_dry_run (negsuc _) tasks s = (refl, refl)
    purge_dry_run (pos days) tasks s =
        purge_each_dry statuses path (sub_ℕ now (days * 86400 * usec)) tasks 0 s s

    module _ (days : ℕ) where
      -- A task that a purge takes: in one of the statuses, of the path unless that is empty, and finished
      -- more than the days ago.
      abbrev pub is_taken : Hash → Bool
      is_taken h =
          any (has_status (h status)) statuses
          && on_path path (h task_path)
          && finished_before (days * 86400 * usec) now (h finished_at)

      is_purged-taken :
          (h : Hash)
          → is_readable (h finished_at) ≡ true
          → is_purged statuses path (sub_ℕ now (days * 86400 * usec)) h ≡ ok (is_taken h)
      unfolding is_purged
      is_purged-taken h readable = elim (Bool-cases (any (has_status (h status)) statuses)) [
        | inr other ↦ rw other refl
        | inl in_status ↦ elim (Bool-cases (other_path path h)) [
          | inl apart ↦ rw (in_status, apart, sym (not-other_path path h) ∙ ap not apart) refl
          | inr same ↦
              rw (in_status, same, sym (not-other_path path h) ∙ ap not same)
                (decide_age_lem (days * 86400 * usec) now (h finished_at) readable)
        ]
      ]

      abbrev purge : List (Text × Hash) → ℕ → S → Result ℕ × S
      purge tasks n s =
          purge_each r self statuses path false (sub_ℕ now (days * 86400 * usec)) tasks n s

      purge_each_lem :
          (tasks : List (Text × Hash)) (n : ℕ) (s : S)
          → all (λ (item : Text × Hash). is_readable (item.1 finished_at)) tasks ≡ true
          → ((purge tasks n s).0
              ≡ ok (n + length (select (λ (item : Text × Hash). is_taken item.1) tasks)))
            × ((k : Key)
                → r.hgetall (purge tasks n s).1 k ≡ (
                    if any
                      (λ (item : Text × Hash).
                        is_taken item.1 && text_eq (result_key self item.0) k)
                      tasks
                    then none
                    else r.hgetall s k))
      unfolding purge_each purge_one
      purge_each_lem [] n s readable = (ap ok (omega arith), λ k. refl)
      purge_each_lem ((id, h) ∷ tasks) n s readable =
          let verdict = is_purged-taken h (ground (arith, readable)) in
          let later : all (λ (item : Text × Hash). is_readable (item.1 finished_at)) tasks ≡ true =
            ground (arith, readable) in
          elim (Bool-cases (is_taken h)) [
            | inr kept ↦
                let (count, hashes) = purge_each_lem tasks (n + 0) s later in
                rw (purge_each, verdict, kept) (count ∙ ap ok (omega arith), hashes)
            | inl taken ↦
                let (count, hashes) =
                  purge_each_lem tasks (n + 1) (delete_task_data r self id s).1 later in
                rw (purge_each, verdict, taken)
                  (
                    count ∙ ap ok (omega arith),
                    λ k.
                        hashes k
                        ∙ ap
                            (λ o.
                              if any
                                (λ (item : Text × Hash).
                                  is_taken item.1 && text_eq (result_key self item.0) k)
                                tasks
                              then none
                              else o)
                            (hgetall-delete_task_data id s k)
                        ∙ if_or _ (text_eq (result_key self id) k) (r.hgetall s k),
                  )
          ]

      -- A purge, no dry run, of tasks whose finish times are blank or times returns the number of those that it takes:
      -- in one of the statuses, of the path unless that is empty, and finished more than the days
      -- ago. Their hashes are gone, and every other hash is as it was.
      pub purge_deletes :
          (tasks : List (Text × Hash)) (s : S)
          → all (λ (item : Text × Hash). is_readable (item.1 finished_at)) tasks ≡ true
          → let (out, after) =
              purge_completed_tasks r self statuses path (pos days) false now tasks s in
            (out ≡ ok (length (select (λ (item : Text × Hash). is_taken item.1) tasks)))
            × ((k : Key)
                → r.hgetall after k ≡ (
                    if any
                      (λ (item : Text × Hash).
                        is_taken item.1 && text_eq (result_key self item.0) k)
                      tasks
                    then none
                    else r.hgetall s k))
      unfolding purge_completed_tasks
      purge_deletes tasks s readable =
          let (count, hashes) = purge_each_lem tasks 0 s readable in
          (count ∙ ap ok (omega arith), hashes)
