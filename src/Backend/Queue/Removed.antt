-- ===== src/Backend/Queue/Removed.antt =====
-- What delete_task_data and reset_task_status leave behind.
use django_tasks_redis.Prelude.{
  ok, raise, Error, ℕ, ◌≡◌, refl, true, false, Option, none, some, List, [], ◌∷◌, ◌++◌, Text,
  text_eq, text_eq_refl, if◌then◌else◌,
}
use django_tasks_redis.Prelude.Int.{ℤ}
use django_tasks_redis.Task.{
  Field, Hash, Value, Status, state, text, errors, ready, status, queue_name, finished_at,
  errors_json, priority, queue_or_default, text_of, task_id, task_path, level,
}
use django_tasks_redis.Redis.{
  Key, Server, execute, hget, hset, hset_field, xadd, xgroup_create, hgetall-execute,
  is_member-execute, zscore-execute, xrange-execute, score_effects,
}
use django_tasks_redis.Utils.{priority_to_level}
use django_tasks_redis.Utils.Keys.{text_eq-status_index_key}
use django_tasks_redis.Backend.Config.{
  Config, result_key, results_index_key, index_key, stream_key, status_index_keys,
}
use django_tasks_redis.Backend.Index.{index_status}
use django_tasks_redis.Backend.Index.Effect.{leaves_streams-index_status}
use django_tasks_redis.Backend.Index.State.{IndexedAs, write-IndexedAs, hgetall-write}
use django_tasks_redis.Backend.Entry.{stream_entry, entry_fields, stream_entry-eq-ok, priority_of}
use django_tasks_redis.Backend.Queue.{
  delete_task_data, delete_pipeline, reset_task_status, requeue, requeue_at,
}

module _ {S : Type 0} (r : Server S) (self : Config) (id : Text) where
  score_effects-delete_pipeline :
      (q : Text) (tu : Status) (o : Option ℕ)
      → (score_effects (delete_pipeline self id (some q)) (index_key self none tu) id o ≡ none)
        × (score_effects (delete_pipeline self id (some q)) (index_key self (some q) tu) id o
            ≡ none)
  unfolding delete_pipeline status_index_keys
  score_effects-delete_pipeline q ready o =
      (simp (text_eq-status_index_key, text_eq_refl), simp (text_eq-status_index_key, text_eq_refl))
  score_effects-delete_pipeline q _ o =
      (simp (text_eq-status_index_key, text_eq_refl), simp (text_eq-status_index_key, text_eq_refl))

  gone :
      (q : Text) (s : S)
      → r.hgetall (execute r (delete_pipeline self id (some q)) s) (result_key self id) ≡ none
  unfolding delete_pipeline status_index_keys
  gone q s = rw (hgetall-execute, text_eq_refl)

  not_member :
      (q : Text) (s : S)
      → r.is_member (execute r (delete_pipeline self id (some q)) s) (results_index_key self) id
        ≡ false
  unfolding delete_pipeline status_index_keys
  not_member q s = simp (is_member-execute, text_eq_refl)

  -- Deleting a task stored with its queue tells that it was there, and takes it out of everything that
  -- is counted: the hash, the results index, and the sets of every status, backend-wide and of its
  -- queue.
  pub delete_task_data_removes :
      (s : S) (h : Hash) (q : Text)
      → r.hgetall s (result_key self id) ≡ some h
      → h queue_name ≡ some (text q)
      → let (deleted, after) = delete_task_data r self id s in
        (deleted ≡ true)
        × (r.hgetall after (result_key self id) ≡ none)
        × (r.is_member after (results_index_key self) id ≡ false)
        × ((tu : Status)
            → (r.zscore after (index_key self none tu) id ≡ none)
              × (r.zscore after (index_key self (some q) tu) id ≡ none))
  unfolding delete_task_data
  delete_task_data_removes s h q stored queued =
      rw (stored, queued)
        (
          refl,
          gone q s,
          not_member q s,
          λ tu. (
            rw zscore-execute (score_effects-delete_pipeline q tu _).0,
            rw zscore-execute (score_effects-delete_pipeline q tu _).1,
          ),
        )

  abbrev reset_fields : List (Field × Value)
  reset_fields = (status, state ready) ∷ (finished_at, text []) ∷ (errors_json, errors []) ∷ []

  -- The write to the hash and the index moves no stream.
  streams :
      (s : S) (q : Text) (now : ℕ) (k : Key)
      → r.xrange
          (execute r
            (hset (result_key self id) reset_fields ∷ index_status self id q ready now now)
            s)
          k
        ≡ r.xrange s k
  streams s q now k = xrange-execute r _ s k (leaves_streams-index_status self id q ready now now)

  requeue_lem :
      (s : S) (h : Hash) (q : Text) (n : ℤ) (fields : List (Field × Value))
      → h priority ≡ some (level n)
      → h queue_name ≡ some (text q)
      → stream_entry h ≡ ok fields
      → let key = stream_key self q (priority_to_level n) in
        requeue r self h s ≡ (ok tt, r.apply (xadd key fields) (r.apply (xgroup_create key) s))
  unfolding requeue requeue_at queue_or_default text_of
  requeue_lem s h q n fields level_of queued built = rw (level_of, requeue_at, built, queued)

  requeue_fails :
      (s : S) (h : Hash) (n : ℤ) (e : Error)
      → priority_of (h priority) ≡ ok n
      → stream_entry h ≡ raise e
      → let key = stream_key self (queue_or_default (h queue_name)) (priority_to_level n) in
        requeue r self h s ≡ (raise e, r.apply (xgroup_create key) s)
  unfolding requeue requeue_at
  requeue_fails s h n e level_of missing = rw (level_of, requeue_at, missing)

  -- A reset makes a task stored with its id, path, queue and priority READY again: its errors and its
  -- end are blank, its other fields stay, the index has it under READY alone, and it is appended to the
  -- stream of its queue and priority, and to no other.
  pub reset_task_status_requeues :
      (s : S) (h : Hash) (q : Text) (named path : Value) (n : ℤ) (now : ℕ)
      → r.hgetall s (result_key self id) ≡ some h
      → h task_id ≡ some named
      → h task_path ≡ some path
      → h priority ≡ some (level n)
      → h queue_name ≡ some (text q)
      → let (reset, after) = reset_task_status r self id now s in
        (reset ≡ ok true)
        × ((f : Field) → hget r after (result_key self id) f ≡ hset_field reset_fields f (h f))
        × IndexedAs r self id q ready now after
        × (i : ℕ) × ((k : Key)
            → r.xrange after k ≡ (
                if text_eq (stream_key self q (priority_to_level n)) k
                then r.xrange s k ++ record { message_id = i; fields = entry_fields h } ∷ []
                else r.xrange s k))
  unfolding reset_task_status queue_or_default execute
  reset_task_status_requeues s h q named path n now stored i p level_of queued =
      let s1 =
        execute r (hset (result_key self id) reset_fields ∷ index_status self id q ready now now)
          s in
      let key = stream_key self q (priority_to_level n) in
      let s2 = r.apply (xgroup_create key) s1 in
      let sent = xadd key (entry_fields h) in
      let index = write-IndexedAs r self (result_key self id) reset_fields id q ready now now s in
      rw
        (
          stored,
          requeue_lem _ h q n (entry_fields h) level_of queued
              (stream_entry-eq-ok h named path (level n) (text q) i p level_of queued),
          queued,
        )
        (
          refl,
          λ f.
              rw (
                r.hgetall-apply sent s2,
                r.hgetall-apply _ s1,
                hgetall-write,
                text_eq_refl,
                stored,
              ),
          λ tu. (
            rw (r.zscore-apply sent s2, r.zscore-apply _ s1) (index tu).0,
            rw (r.zscore-apply sent s2, r.zscore-apply _ s1) (index tu).1,
          ),
          r.next_id s2,
          λ k. rw (r.xrange-apply sent s2 k, r.xrange-apply _ s1 k, streams s q now k),
        )

  -- A reset of a task whose hash lacks a field of a stream entry, its priority being a number where it has
  -- one, raises after the task was stored as READY, in the hash and in the index, and appends it to no
  -- stream.
  pub reset_task_status_strands :
      (s : S) (h : Hash) (n : ℤ) (now : ℕ) (e : Error)
      → r.hgetall s (result_key self id) ≡ some h
      → priority_of (h priority) ≡ ok n
      → stream_entry h ≡ raise e
      → let (reset, after) = reset_task_status r self id now s in
        (reset ≡ raise e)
        × (hget r after (result_key self id) status ≡ some (state ready))
        × IndexedAs r self id (queue_or_default (h queue_name)) ready now after
        × ((k : Key) → r.xrange after k ≡ r.xrange s k)
  unfolding reset_task_status execute
  reset_task_status_strands s h n now e stored level_of missing =
      let q = queue_or_default (h queue_name) in
      let s1 =
        execute r (hset (result_key self id) reset_fields ∷ index_status self id q ready now now)
          s in
      let index = write-IndexedAs r self (result_key self id) reset_fields id q ready now now s in
      rw (stored, requeue_fails _ h n e level_of missing)
        (
          refl,
          rw (r.hgetall-apply _ s1, hgetall-write, text_eq_refl) refl,
          λ tu. (rw (r.zscore-apply _ s1) (index tu).0, rw (r.zscore-apply _ s1) (index tu).1),
          λ k. rw (r.xrange-apply _ s1 k, streams s q now k),
        )
