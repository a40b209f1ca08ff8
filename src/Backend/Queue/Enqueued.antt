-- ===== src/Backend/Queue/Enqueued.antt =====
-- What enqueue leaves in the store: the task, its index entry, and one way to a worker.
use django_tasks_redis.Prelude.{
  [], codes, Bool-cases, inl, inr, if◌then◌else◌, ℕ, ◌≡◌, refl, ap, fun_ext, ◌∙◌, Bool, true, false,
  Option, none, some, List, ◌∷◌, ◌++◌, Text, text_eq_refl, or_else, ok,
}
use django_tasks_redis.Task.{
  Field, Hash, Value, ready, text, state, level, time, ids, errors, task_id, task_path, args_json,
  kwargs_json, status, priority, queue_name, backend_name, run_after, takes_context, enqueued_at,
  started_at, finished_at, last_attempted_at, return_value_json, errors_json, worker_ids_json,
  serialize_datetime,
}
use django_tasks_redis.Redis.{
  Key, Command, Server, execute, hget, hset, hset_field, sadd, hgetall-execute, is_member-execute,
  zscore-execute, xrange-execute, hash_effects-append, score_effects, member_effects-append,
  execute-append,
}
use django_tasks_redis.Utils.Keys.{text_eq-delayed_key}
use django_tasks_redis.Backend.Config.{Config, result_key, results_index_key, delayed_key}
use django_tasks_redis.Backend.Index.{index_status}
use django_tasks_redis.Backend.Index.Effect.{
  hash_effects-index_status, member_effects-index_status, score_effects-index_status_other,
  leaves_streams-index_status,
}
use django_tasks_redis.Backend.Index.State.{IndexedAs, index_status-IndexedAs}
use django_tasks_redis.Backend.Queue.Pipeline.{
  hash_effects-expire_result, hash_effects-queue_up, member_effects-expire_result,
  member_effects-queue_up, score_effects-queue_up, leaves_streams-expire_result,
  score_effects-expire_result,
}
use django_tasks_redis.Backend.Queue.{
  Task, enqueue, enqueue_pipeline, task_data_of, delay_of, expire_result, queue_up, index_settled,
  has_status_index, ensure_group,
}

-- Every field of the hash is given, so an older hash leaves nothing behind.
task_data_complete :
    (self : Config) (task : Task) (id args kwargs : Text) (now : ℕ) (f : Field) (o : Option Value)
    → hset_field (task_data_of self task id args kwargs now) f o
      ≡ hset_field (task_data_of self task id args kwargs now) f none
unfolding task_data_of
task_data_complete self task id args kwargs now task_id o = refl
task_data_complete self task id args kwargs now _ o = refl

-- What each field of a task is to hold once it is enqueued.
abbrev pub submitted : Config → Task → Text → Text → Text → ℕ → Field → Value
submitted self task id args kwargs now task_id = text id
submitted self task id args kwargs now task_path = text task.path
submitted self task id args kwargs now args_json = text args
submitted self task id args kwargs now kwargs_json = text kwargs
submitted self task id args kwargs now status = state ready
submitted self task id args kwargs now priority = level task.importance
submitted self task id args kwargs now queue_name = text task.queue
submitted self task id args kwargs now backend_name = text self.alias
submitted self task id args kwargs now run_after = serialize_datetime task.due
submitted self task id args kwargs now takes_context =
    text (if task.context then codes "true" else codes "false")
submitted self task id args kwargs now enqueued_at = time now
submitted self task id args kwargs now started_at = text []
submitted self task id args kwargs now finished_at = text []
submitted self task id args kwargs now last_attempted_at = text []
submitted self task id args kwargs now return_value_json = text []
submitted self task id args kwargs now errors_json = errors []
submitted self task id args kwargs now worker_ids_json = ids []

task_data_of-submitted :
    (self : Config) (task : Task) (id args kwargs : Text) (now : ℕ) (f : Field) (o : Option Value)
    → hset_field (task_data_of self task id args kwargs now) f o
      ≡ some (submitted self task id args kwargs now f)
unfolding task_data_of serialize_datetime
task_data_of-submitted self task id args kwargs now takes_context o =
    elim (Bool-cases task.context) [ inl asked ↦ rw asked refl | inr plain ↦ rw plain refl ]
task_data_of-submitted self task id args kwargs now run_after o = refl
task_data_of-submitted self task id args kwargs now _ o = refl

module _ {S : Type 0} (r : Server S) (self : Config) (task : Task) (id args kwargs : Text)
    (now : ℕ) where
  abbrev pub delay : Option ℕ
  delay = delay_of task.due now

  abbrev pub fields : List (Field × Value)
  fields = task_data_of self task id args kwargs now

  abbrev pub task_hash : Hash
  task_hash f = hset_field fields f none

  hgetall-enqueued :
      (s : S)
      → r.hgetall (execute r (enqueue_pipeline self task id args kwargs now) s) (result_key self id)
        ≡ some (λ f. hset_field fields f (hget r s (result_key self id) f))
  unfolding enqueue_pipeline
  hgetall-enqueued s = rw (
    hgetall-execute, hash_effects-append, hash_effects-expire_result, hash_effects-append,
    hash_effects-index_status, hash_effects-queue_up, text_eq_refl,
  )

  is_member-enqueued :
      (s : S)
      → r.is_member
          (execute r (enqueue_pipeline self task id args kwargs now) s)
          (results_index_key self)
          id
        ≡ true
  unfolding enqueue_pipeline
  is_member-enqueued s = rw (
    is_member-execute, member_effects-append, member_effects-expire_result, member_effects-append,
    member_effects-index_status, member_effects-queue_up, text_eq_refl, text_eq_refl,
  )

  abbrev moves : List Command
  moves = index_status self id task.queue ready (or_else delay now) now

  -- The pipeline ends with the index move and the way to a worker.
  enqueue_ends :
      (s : S)
      → (s0 : S) × (execute r (enqueue_pipeline self task id args kwargs now) s
          ≡ execute r (queue_up self task id task_hash delay) (execute r moves s0))
        × ((k : Key) → r.xrange s0 k ≡ r.xrange s k)
        × ((k : Key) (m : Text) → r.zscore s0 k m ≡ r.zscore s k m)
  unfolding enqueue_pipeline execute
  enqueue_ends s =
      let s1 = r.apply (hset (result_key self id) fields) s in
      let timed = expire_result self id delay now in
      let s2 = execute r timed s1 in
      let added = sadd (results_index_key self) id in
      let way = queue_up self task id task_hash delay in
      (
        r.apply added s2,
        execute-append r timed (added ∷ (moves ++ way)) s1
            ∙ execute-append r moves way (r.apply added s2),
        λ k.
            r.xrange-apply added s2 k
            ∙ xrange-execute r timed s1 k (leaves_streams-expire_result self task id now delay)
            ∙ r.xrange-apply (hset (result_key self id) fields) s k,
        λ k m.
            r.zscore-apply added s2 k m
            ∙ zscore-execute r timed s1 k m
            ∙ score_effects-expire_result self task id now delay k m (r.zscore s1 k m)
            ∙ r.zscore-apply (hset (result_key self id) fields) s k m,
      )

  enqueued-IndexedAs :
      (s : S)
      → IndexedAs r self id task.queue ready
          (or_else delay now)
          (execute r (enqueue_pipeline self task id args kwargs now) s)
  enqueued-IndexedAs s tu =
      let (s0, ends, _, _) = enqueue_ends s in
      let (wide, scoped) =
        index_status-IndexedAs r self id task.queue ready (or_else delay now) now s0 tu in
      (
        rw (ends, zscore-execute, score_effects-queue_up) wide,
        rw (ends, zscore-execute, score_effects-queue_up) scoped,
      )

  -- What comes before the pipeline: the consumer group and the question of the status index.
  module _ (built : Bool) (s : S) where
    abbrev opened : S
    opened = (has_status_index r self built (ensure_group r self task delay s)).1

    ensure_group_quiet :
        (d : Option ℕ)
        → ((k : Key) → r.xrange (ensure_group r self task d s) k ≡ r.xrange s k)
          × ((k : Key) (m : Text) → r.zscore (ensure_group r self task d s) k m ≡ r.zscore s k m)
    unfolding ensure_group
    ensure_group_quiet none = (λ k. r.xrange-apply _ s k, λ k m. r.zscore-apply _ s k m)
    ensure_group_quiet (some t) = (λ k. refl, λ k m. refl)

    index_settled_quiet :
        (b stored : Bool) (s' : S)
        → ((k : Key) → r.xrange (index_settled r self b stored s').1 k ≡ r.xrange s' k)
          × ((k : Key) (m : Text)
              → r.zscore (index_settled r self b stored s').1 k m ≡ r.zscore s' k m)
    unfolding index_settled
    index_settled_quiet true stored s' = (λ k. refl, λ k m. refl)
    index_settled_quiet false true s' = (λ k. refl, λ k m. refl)
    index_settled_quiet false false s' =
        (λ k. r.xrange-apply _ s' k, λ k m. r.zscore-apply _ s' k m)

    has_status_index_quiet :
        (b : Bool) (s' : S)
        → ((k : Key) → r.xrange (has_status_index r self b s').1 k ≡ r.xrange s' k)
          × ((k : Key) (m : Text) → r.zscore (has_status_index r self b s').1 k m ≡ r.zscore s' k m)
    unfolding has_status_index
    has_status_index_quiet true s' = (λ k. refl, λ k m. refl)
    has_status_index_quiet false s' = index_settled_quiet _ _ s'

    xrange-opened : (k : Key) → r.xrange opened k ≡ r.xrange s k
    xrange-opened k =
        (has_status_index_quiet built (ensure_group r self task delay s)).0 k
        ∙ (ensure_group_quiet delay).0 k

    zscore-opened : (k : Key) (m : Text) → r.zscore opened k m ≡ r.zscore s k m
    zscore-opened k m =
        (has_status_index_quiet built (ensure_group r self task delay s)).1 k m
        ∙ (ensure_group_quiet delay).1 k m

    abbrev pub after : S
    after = (enqueue r self built task (ok (args, kwargs)) id now s).1

    after_lem : after ≡ execute r (enqueue_pipeline self task id args kwargs now) opened
    unfolding enqueue
    after_lem = refl

    -- The stored hash is the one given, field by field.
    pub hgetall-after : r.hgetall after (result_key self id) ≡ some task_hash
    hgetall-after = rw after_lem (
        hgetall-enqueued opened
        ∙ ap some (fun_ext λ f. task_data_complete self task id args kwargs now f _))

    -- After enqueue the hash of the task holds its id, its path, the arguments and keyword arguments as
    -- given, the priority, queue, run_after and context of the task, the backend and the present time; it
    -- is READY, and its other times, its return value, its errors and its worker ids are empty. The task
    -- is a member of the results index, and in the status index it is READY alone, since the time
    -- that it starts waiting.
    pub enqueue_stores :
        ((f : Field)
          → hget r after (result_key self id) f ≡ some (submitted self task id args kwargs now f))
        × (r.is_member after (results_index_key self) id ≡ true)
        × IndexedAs r self id task.queue ready (or_else delay now) after
    enqueue_stores = rw after_lem (
      λ f. rw (hgetall-enqueued opened) (task_data_of-submitted self task id args kwargs now f _),
      is_member-enqueued opened,
      enqueued-IndexedAs opened,
    )

    pub xrange-enqueued :
        (s0 : S) × ((k : Key)
          → r.xrange after k ≡ r.xrange (execute r (queue_up self task id task_hash delay) s0) k)
        × ((k : Key) → r.xrange s0 k ≡ r.xrange s k)
    xrange-enqueued =
        let (s0, ends, streams, _) = enqueue_ends opened in
        (
          execute r moves s0,
          λ k. rw (after_lem, ends),
          λ k.
              xrange-execute r moves s0 k
                (leaves_streams-index_status self id task.queue ready _ now)
              ∙ streams k
              ∙ xrange-opened k,
        )

    pub zscore-enqueued :
        (m : Text)
        → r.zscore after (delayed_key self task.queue) m
          ≡ score_effects
              (queue_up self task id task_hash delay)
              (delayed_key self task.queue)
              m
              (r.zscore s (delayed_key self task.queue) m)
    zscore-enqueued m =
        let (s0, ends, _, scores) = enqueue_ends opened in
        rw (
          after_lem,
          ends,
          zscore-execute,
          zscore-execute,
          score_effects-index_status_other self id task.queue ready _ now _
              (λ q tu. (text_eq-delayed_key self.key_prefix self.alias tu q task.queue).0),
          scores,
          zscore-opened,
        )
