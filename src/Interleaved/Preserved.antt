-- ===== src/Interleaved/Preserved.antt =====
-- Every write keeps the index consistent, and so does every interleaving of the writes of any clients.
use django_tasks_redis.Prelude.{
  ◌≡◌, refl, ap, ◌∙◌, true, false, Bool-cases, Option, none, some, List, [], ◌∷◌, Text, text_eq,
  text_eq_refl, if◌then◌else◌, Bool, ℕ, Option-cases, inl, inr, any,
}
use django_tasks_redis.Prelude.Int.{ℤ}
use django_tasks_redis.Task.{
  Status, Value, state, running, ready, successful, failed, status_eq_refl, has_status,
  queue_or_default, queue_name, status,
}
use django_tasks_redis.Redis.{Server, hset, drop_below, execute, hset_field, zscore-execute}
use django_tasks_redis.Utils.Keys.{text_eq-delayed_key}
use django_tasks_redis.Backend.Config.{
  Config, index_key, result_key, status_index_keys, status_index_cutoff,
}
use django_tasks_redis.Backend.Index.{index_status}
use django_tasks_redis.Backend.Index.Effect.{
  moved, index_status-eq-lua_index_status, hash_effects-index_status,
}
use django_tasks_redis.Backend.Scripts.{
  claim_script, transition_script, index_task_script, zrem_all,
}
use django_tasks_redis.Backend.Scripts.Transition.{transition_script_lem, transition_script_missing}
use django_tasks_redis.Backend.Claim.Claimed.{claim_fields_status}
use django_tasks_redis.Backend.Finish.{record_error, record_success}
use django_tasks_redis.Backend.Finish.Written.{finish}
use django_tasks_redis.Backend.Queue.{reset_pipeline}
use django_tasks_redis.Broker.{ack}
use django_tasks_redis.Interleaved.{Write, perform, perform_all}
use django_tasks_redis.Interleaved.Board.{Board, board, put}
use django_tasks_redis.Interleaved.Consistent.{
  Consistent, settled-Consistent, removed-Consistent, quiet-Consistent,
}
use django_tasks_redis.Interleaved.Hashes.{
  keys, board-quiet, board-index_write, hash_effects-zrem_all,
}
use django_tasks_redis.Interleaved.Refined.{
  board-apply, board-delete, board-finish, board-promote, board-submit,
}
use django_tasks_redis.Interleaved.Scores.{
  Moved, index-Moved, write-Moved, finish-Moved, submit-Moved, delete-Left, zrem_all-Left,
  promote-quiet,
}

module _ {S : Type 0} (r : Server S) (self : Config) where
  -- A task that gets a status together with its index entry.
  put-Consistent :
      (id : Text) (st : Status) (since : ℕ) (cutoff : Option ℤ) (s s' : S)
      → board r self s' ≡ put id (some (state st)) (board r self s)
      → Moved r self id st since cutoff s s'
      → Consistent r self s
      → Consistent r self s'
  put-Consistent id st since cutoff s s' fields scores before =
      settled-Consistent r self id st since cutoff s s' (put id (some (state st)) (board r self s))
        (rw (text_eq_refl id) (status_eq_refl st)) (λ m other. rw other refl) fields scores before

  write-Consistent :
      (id : Text) (fields : _) (queue : Text) (st : Status) (now : ℕ) (s : S)
      → ((o : Option Value) → hset_field fields status o ≡ some (state st))
      → Consistent r self s
      → Consistent r self
          (execute r (hset (result_key self id) fields ∷ index_status self id queue st now now) s)
  write-Consistent id fields queue st now s given before =
      put-Consistent id st now _ s _ (board-index_write r self id fields queue st now now s given)
        (write-Moved r self (result_key self id) fields id queue st now now s) before

  finish-Consistent :
      (id : Text) (fields : _) (queue : Text) (st : Status) (now : ℕ) (s : S)
      → ((o : Option Value) → hset_field fields status o ≡ some (state st))
      → Consistent r self s
      → Consistent r self (execute r (finish self id queue fields st now) s)
  finish-Consistent id fields queue st now s given before =
      put-Consistent id st now _ s _ (board-finish r self id queue fields st now s given)
        (finish-Moved r self id queue fields st now s) before

  claim-Consistent :
      (id queue worker : Text) (now : ℕ) (allowed : List Status) (s : S)
      → Consistent r self s
      → Consistent r self
          (claim_script r
            (keys r self id queue)
            now
            worker
            running
            id
            now
            (status_index_cutoff self running now)
            allowed
            s).1
  unfolding claim_script
  claim-Consistent id queue worker now allowed s before = elim (Option-cases (board r self s id)) [
    | inl missing ↦ rw missing before
    | inr (v, stored) ↦ elim (Bool-cases (any (has_status (some v)) allowed)) [
      | inl free ↦
          rw (stored, free, index_status-eq-lua_index_status)
            (write-Consistent id _ queue running now s (claim_fields_status _ _ now worker running)
              before)
      | inr taken ↦ rw (stored, taken) before
    ]
  ]

  transition-Consistent :
      (id queue : Text) (to_status : Status) (now : ℕ) (allowed : List Status) (s : S)
      → Consistent r self s
      → Consistent r self
          (transition_script r
            (keys r self id queue)
            to_status
            id
            now
            (status_index_cutoff self to_status now)
            allowed
            s).1
  transition-Consistent id queue to_status now allowed s before =
      let cutoff = status_index_cutoff self to_status now in
      elim (Option-cases (board r self s id)) [
        | inl missing ↦
            rw
              (transition_script_missing r (keys r self id queue) to_status id now cutoff allowed s
                missing)
              before
        | inr (v, stored) ↦
            let step =
              transition_script_lem r (keys r self id queue) to_status id now cutoff s v allowed
                stored in
            elim (Bool-cases (any (has_status (some v)) allowed)) [
              | inl free ↦
                  rw (step, free, index_status-eq-lua_index_status)
                    (write-Consistent id _ queue to_status now s (λ o. refl) before)
              | inr taken ↦ rw (step, taken) before
            ]
      ]

  index_task-Consistent :
      (id queue : Text) (read_status : Status) (since now : ℕ) (s : S)
      → Consistent r self s
      → Consistent r self
          (index_task_script r
            (keys r self id queue)
            id
            read_status
            since
            (status_index_cutoff self read_status now)
            s).1
  unfolding index_task_script
  index_task-Consistent id queue read_status since now s before =
      let moves = index_status self id queue read_status since now in
      let others = zrem_all id (status_index_keys self (some queue)) in
      elim (Option-cases (board r self s id)) [
        | inl missing ↦ rw missing (
            removed-Consistent r self id s (execute r others s)
              (λ m other.
                ap (λ (b : Board). b m)
                  (board-quiet r self others s
                    (hash_effects-zrem_all id (status_index_keys self (some queue)))))
              (zrem_all-Left r self id queue s) before)
        | inr (v, stored) ↦ elim (Bool-cases (has_status (some v) read_status)) [
          | inl current ↦
              rw (stored, current, index_status-eq-lua_index_status)
                (settled-Consistent r self id read_status since _ s _ (board r self s)
                  (rw stored current) (λ m other. refl)
                  (board-quiet r self moves s
                    (hash_effects-index_status self id queue read_status since now))
                  (index-Moved r self id queue read_status since now s) before)
          | inr changed ↦ rw (stored, changed) before
        ]
      ]

  dropped :
      (same : Bool) (bound : ℤ) (o : Option ℕ)
      → (if same then drop_below bound o else o) ≡ moved true same false 0 (some bound) o
  dropped true bound o = refl
  dropped false bound o = refl

  perform-Consistent :
      (w : Write) (s : S) → Consistent r self s → Consistent r self (perform r self w s).1
  unfolding perform record_error record_success reset_pipeline ack
  perform-Consistent (Write.claim id queue worker now allowed) s before =
      claim-Consistent id queue worker now allowed s before
  perform-Consistent (Write.transition id queue to_status now allowed) s before =
      transition-Consistent id queue to_status now allowed s before
  perform-Consistent (Write.index_task id queue read_status since now) s before =
      index_task-Consistent id queue read_status since now s before
  perform-Consistent (Write.finish_failed id task_data error now) s before =
      finish-Consistent id _ (queue_or_default (task_data queue_name)) failed now s (λ o. refl)
        before
  perform-Consistent (Write.finish_successful id task_data value now) s before =
      finish-Consistent id _ (queue_or_default (task_data queue_name)) successful now s (λ o. refl)
        before
  perform-Consistent (Write.submit task id args kwargs now) s before =
      put-Consistent id ready _ _ s _ (board-submit r self task id args kwargs now s)
        (submit-Moved r self task id args kwargs now s) before
  perform-Consistent (Write.remove id queue) s before =
      removed-Consistent r self id s _
        (λ m other. ap (λ (b : Board). b m) (board-delete r self id queue s) ∙ rw other refl)
        (delete-Left r self id queue s) before
  perform-Consistent (Write.reset id queue now) s before =
      write-Consistent id _ queue ready now s (λ o. refl) before
  perform-Consistent (Write.prune_index queue st bound) s before =
      quiet-Consistent r self s _ (board-apply r self _ s (λ k h. refl))
        (λ tu m. (
          text_eq (index_key self queue st) (index_key self none tu),
          some bound,
          r.zscore-apply _ s _ m
              ∙ dropped (text_eq (index_key self queue st) (index_key self none tu)) bound
                  (r.zscore s (index_key self none tu) m),
        ))
        before
  perform-Consistent (Write.promote queue id level fields) s before =
      quiet-Consistent r self s _ (board-promote r self _ _ _ id fields s)
        (λ tu m. (false, none, promote-quiet r self queue _ _ id fields s tu m)) before
  perform-Consistent (Write.postpone queue id due) s before =
      quiet-Consistent r self s _ (board-apply r self _ s (λ k h. refl))
        (λ tu m. (
          false,
          none,
          rw (r.zscore-apply, (text_eq-delayed_key self.key_prefix self.alias tu none queue).1),
        ))
        before
  perform-Consistent (Write.acknowledge message) s before =
      quiet-Consistent r self s _ (board-quiet r self (ack message) s (λ k h. refl))
        (λ tu m. (false, none, rw zscore-execute)) before

  -- While no hash expires: in a store whose index is consistent, it stays so, whatever writes the
  -- clients send, in whatever order they reach the server. A task that the backend-wide set of a status
  -- lists is stored, and its hash has that status.
  pub perform_all-Consistent :
      (ws : List Write) (s : S)
      → Consistent r self s
      → Consistent r self (perform_all r self ws s).1
  unfolding perform_all
  perform_all-Consistent [] s before = before
  perform_all-Consistent (w ∷ ws) s before =
      perform_all-Consistent ws (perform r self w s).1 (perform-Consistent w s before)
