-- ===== src/Interleaved/Scores.antt =====
-- What each transaction does to the backend-wide sets of the index.
use django_tasks_redis.Prelude.{
  ℕ, ◌≡◌, true, Option, none, some, List, ◌∷◌, Text, text_eq, if◌then◌else◌, Bool-cases, inl, inr,
  or_else, is_some,
}
use django_tasks_redis.Prelude.Int.{ℤ, pos, ltb_ℤ}
use django_tasks_redis.Task.{Field, Value, Status, ready, status_eq, has_status, status}
use django_tasks_redis.Redis.{
  Key, Server, hset, zrem, execute, hget, score_effects, score_effects-append, zscore-execute,
}
use django_tasks_redis.Utils.Keys.{
  text_eq-status_index_key, text_eq-delayed_key, text_eq-result_key_wide,
}
use django_tasks_redis.Backend.Config.{
  Config, index_key, delayed_key, status_index_keys, status_index_cutoff,
}
use django_tasks_redis.Backend.Index.{index_status}
use django_tasks_redis.Backend.Index.Effect.{moved, score_effects-index_status}
use django_tasks_redis.Backend.Scripts.{zrem_all}
use django_tasks_redis.Backend.Finish.{expire_completed}
use django_tasks_redis.Backend.Finish.Written.{finish}
use django_tasks_redis.Backend.Queue.{Task, enqueue_pipeline, delete_pipeline, delay_of}
use django_tasks_redis.Backend.Queue.Pipeline.{score_effects-expire_result, score_effects-queue_up}
use django_tasks_redis.Broker.{promote_script}

-- The scores of a backend-wide set after a task moved to a status.
abbrev pub Moved : {S : Type 0} → Server S → Config → Text → Status → ℕ → Option ℤ → S → S → Type 0
Moved r self id st since cutoff s s' =
    (tu : Status) (m : Text)
    → r.zscore s' (index_key self none tu) m
      ≡ moved true (status_eq tu st) (text_eq id m) since cutoff
          (r.zscore s (index_key self none tu) m)

-- The same after a task left every set.
abbrev pub Left : {S : Type 0} → Server S → Config → Text → S → S → Type 0
Left r self id s s' =
    (tu : Status) (m : Text)
    → r.zscore s' (index_key self none tu) m
      ≡ (if text_eq id m then none else r.zscore s (index_key self none tu) m)

score_effects-zrem_all :
    (self : Config) (id queue : Text) (tu : Status) (m : Text) (o : Option ℕ)
    → score_effects (zrem_all id (status_index_keys self (some queue))) (index_key self none tu) m o
      ≡ (if text_eq id m then none else o)
unfolding zrem_all status_index_keys
score_effects-zrem_all self id queue ready m o = simp text_eq-status_index_key
score_effects-zrem_all self id queue _ m o = simp text_eq-status_index_key

ruleset deletions = (text_eq-status_index_key, text_eq-result_key_wide)

score_effects-delete :
    (self : Config) (id : Text) (queue : Option Text) (tu : Status) (m : Text) (o : Option ℕ)
    → score_effects (delete_pipeline self id queue) (index_key self none tu) m o
      ≡ (if text_eq id m then none else o)
unfolding delete_pipeline status_index_keys
score_effects-delete self id none ready m o = simp deletions
score_effects-delete self id none _ m o = simp deletions
score_effects-delete self id (some q) ready m o = simp deletions
score_effects-delete self id (some q) _ m o = simp deletions

module _ {S : Type 0} (r : Server S) (self : Config) where
  pub index-Moved :
      (id queue : Text) (st : Status) (since now : ℕ) (s : S)
      → Moved r self id st since
          (status_index_cutoff self st now)
          s
          (execute r (index_status self id queue st since now) s)
  index-Moved id queue st since now s tu m = rw (zscore-execute, score_effects-index_status)

  pub write-Moved :
      (key : Key) (fields : List (Field × Value)) (id queue : Text) (st : Status) (since now : ℕ)
      (s : S)
      → Moved r self id st since
          (status_index_cutoff self st now)
          s
          (execute r (hset key fields ∷ index_status self id queue st since now) s)
  write-Moved key fields id queue st since now s tu m =
      rw (zscore-execute, score_effects-index_status)

  score_effects-expire_completed :
      (id : Text) (k : Key) (m : Text) (o : Option ℕ)
      → score_effects (expire_completed self id) k m o ≡ o
  unfolding expire_completed
  score_effects-expire_completed id k m o =
      elim (Bool-cases (ltb_ℤ (pos 0) self.completed_task_ttl)) [ inl e ↦ rw e | inr e ↦ rw e ]

  pub finish-Moved :
      (id queue : Text) (fields : List (Field × Value)) (st : Status) (now : ℕ) (s : S)
      → Moved r self id st now
          (status_index_cutoff self st now)
          s
          (execute r (finish self id queue fields st now) s)
  finish-Moved id queue fields st now s tu m = rw (
    zscore-execute, score_effects-append, score_effects-expire_completed,
    score_effects-index_status,
  )

  pub submit-Moved :
      (task : Task) (id args kwargs : Text) (now : ℕ) (s : S)
      → Moved r self id ready
          (or_else (delay_of task.due now) now)
          (status_index_cutoff self ready now)
          s
          (execute r (enqueue_pipeline self task id args kwargs now) s)
  unfolding enqueue_pipeline
  submit-Moved task id args kwargs now s tu m = rw (
    zscore-execute, score_effects-append, score_effects-expire_result, score_effects-append,
    score_effects-index_status, score_effects-queue_up,
  )

  pub delete-Left :
      (id : Text) (queue : Option Text) (s : S)
      → Left r self id s (execute r (delete_pipeline self id queue) s)
  delete-Left id queue s tu m = rw (zscore-execute, score_effects-delete)

  pub zrem_all-Left :
      (id queue : Text) (s : S)
      → Left r self id s (execute r (zrem_all id (status_index_keys self (some queue))) s)
  zrem_all-Left id queue s tu m = rw (zscore-execute, score_effects-zrem_all)

  -- The delayed set and the streams are no set of the index.
  pub promote-quiet :
      (queue result stream id : Text) (fields : List (Field × Value)) (s : S) (tu : Status)
      (m : Text)
      → r.zscore
          (promote_script r (delayed_key self queue) result stream id ready fields s).1
          (index_key self none tu)
          m
        ≡ r.zscore s (index_key self none tu) m
  unfolding promote_script
  promote-quiet queue result stream id fields s tu m =
      let delayed = delayed_key self queue in
      let s1 = r.apply (zrem delayed id) s in
      let apart = (text_eq-delayed_key self.key_prefix self.alias tu none queue).1 in
      elim (Bool-cases (is_some (r.zscore s delayed id))) [
        | inl waits ↦ elim (Bool-cases (has_status (hget r s1 result status) ready)) [
          | inl idle ↦ rw (waits, idle, r.zscore-apply, r.zscore-apply, apart)
          | inr late ↦ rw (waits, late, r.zscore-apply, apart)
        ]
        | inr absent ↦ rw (absent, r.zscore-apply, apart)
      ]
