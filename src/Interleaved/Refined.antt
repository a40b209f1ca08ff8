-- ===== src/Interleaved/Refined.antt =====
-- The store refines the board: every write, and so every interleaving of the writes of any clients.
use django_tasks_redis.Prelude.{
  ℕ, ◌≡◌, refl, ap, ◌∙◌, Option, none, some, List, [], ◌∷◌, ◌++◌, Text, map, Bool-cases, inl, inr,
  text_eq, fun_ext, is_some,
}
use django_tasks_redis.Prelude.Int.{ℤ, pos}
use django_tasks_redis.Task.{
  Field, Hash, Value, Status, ready, successful, failed, state, status, has_status,
  queue_or_default, queue_name,
}
use django_tasks_redis.Redis.{
  Key, Command, Server, execute, hget, hash_effects, hash_effects-append, hash_effect,
  hgetall-execute, hset_field, zrem, xadd,
}
use django_tasks_redis.Utils.Keys.{text_eq-get_result_key}
use django_tasks_redis.Backend.Config.{Config, status_index_keys}
use django_tasks_redis.Backend.Index.{index_status}
use django_tasks_redis.Backend.Index.Effect.{hash_effects-index_status}
use django_tasks_redis.Backend.Finish.{record_error, record_success, expire_completed}
use django_tasks_redis.Backend.Finish.Written.{finish, hash_effects-expire_completed}
use django_tasks_redis.Backend.Queue.{
  Task, enqueue_pipeline, delete_pipeline, reset_pipeline, task_data_of,
}
use django_tasks_redis.Backend.Queue.Pipeline.{hash_effects-pipeline_tail}
use django_tasks_redis.Broker.{promote_script, ack}
use django_tasks_redis.Interleaved.{Write, perform, perform_all}
use django_tasks_redis.Interleaved.Board.{Board, board, put, advance, advance_all}
use django_tasks_redis.Interleaved.Hashes.{
  board-write, board-quiet, board-index_write, seen, claim_script-board, transition_script-board,
  index_task_script-board,
}

hash_effects-zrem_each :
    (id : Text) (keys : List Key) (k : Key) (h : Option Hash)
    → hash_effects (map (λ key. zrem key id) keys) k h ≡ h
hash_effects-zrem_each id [] k h = refl
hash_effects-zrem_each id (key ∷ keys) k h = hash_effects-zrem_each id keys k h

module _ {S : Type 0} (r : Server S) (self : Config) where
  pub board-apply :
      (c : Command) (s : S)
      → ((k : Key) (h : Option Hash) → hash_effect c k h ≡ h)
      → board r self (r.apply c s) ≡ board r self s
  board-apply c s quiet = fun_ext λ m. rw (r.hgetall-apply, quiet)

  pub board-finish :
      (id queue : Text) (fields : List (Field × Value)) (st : Status) (now : ℕ) (s : S)
      → ((o : Option Value) → hset_field fields status o ≡ some (state st))
      → board r self (execute r (finish self id queue fields st now) s)
        ≡ put id (some (state st)) (board r self s)
  board-finish id queue fields st now s given =
      board-write r self id fields st
        (expire_completed self id ++ index_status self id queue st now now) s
        (λ k h. rw (hash_effects-append, hash_effects-expire_completed, hash_effects-index_status))
        given

  pub board-delete :
      (id : Text) (queue : Option Text) (s : S)
      → board r self (execute r (delete_pipeline self id queue) s) ≡ put id none (board r self s)
  unfolding delete_pipeline
  board-delete id queue s = fun_ext λ m. elim (Bool-cases (text_eq id m)) [
    | inl same ↦ rw (
      hgetall-execute,
      hash_effects-zrem_each id (status_index_keys self queue),
      text_eq-get_result_key,
      same,
    )
    | inr other ↦ rw (
      hgetall-execute,
      hash_effects-zrem_each id (status_index_keys self queue),
      text_eq-get_result_key,
      other,
    )
  ]

  pub board-promote :
      (delayed result stream : Key) (id : Text) (fields : List (Field × Value)) (s : S)
      → board r self (promote_script r delayed result stream id ready fields s).1 ≡ board r self s
  unfolding promote_script
  board-promote delayed result stream id fields s =
      let s1 = r.apply (zrem delayed id) s in
      elim (Bool-cases (is_some (r.zscore s delayed id))) [
        | inl waits ↦ elim (Bool-cases (has_status (hget r s1 result status) ready)) [
          | inl idle ↦
              rw (waits, idle)
                (board-apply (xadd stream fields) s1 (λ k h. refl)
                  ∙ board-apply (zrem delayed id) s (λ k h. refl))
          | inr late ↦ rw (waits, late) (board-apply (zrem delayed id) s (λ k h. refl))
        ]
        | inr absent ↦ rw absent (board-apply (zrem delayed id) s (λ k h. refl))
      ]

  pub board-submit :
      (task : Task) (id args kwargs : Text) (now : ℕ) (s : S)
      → board r self (execute r (enqueue_pipeline self task id args kwargs now) s)
        ≡ put id (some (state ready)) (board r self s)
  unfolding enqueue_pipeline task_data_of
  board-submit task id args kwargs now s =
      board-write r self id (task_data_of self task id args kwargs now) ready _ s
        (λ k h.
          hash_effects-pipeline_tail self task id now ready _ _
            (λ f. hset_field (task_data_of self task id args kwargs now) f none) k h)
        (λ o. refl)

  perform-advance :
      (w : Write) (s : S) → seen r self (perform r self w s) ≡ advance w (board r self s)
  unfolding perform advance record_error record_success reset_pipeline ack
  perform-advance (Write.claim id queue worker now allowed) s =
      claim_script-board r self id queue worker now allowed s
  perform-advance (Write.transition id queue to_status now allowed) s =
      transition_script-board r self id queue to_status now allowed s
  perform-advance (Write.index_task id queue read_status since now) s =
      index_task_script-board r self id queue read_status since now s
  perform-advance (Write.finish_failed id task_data error now) s =
      ap (λ b. (pos 0, b))
        (board-finish id (queue_or_default (task_data queue_name)) _ failed now s (λ o. refl))
  perform-advance (Write.finish_successful id task_data value now) s =
      ap (λ b. (pos 0, b))
        (board-finish id (queue_or_default (task_data queue_name)) _ successful now s (λ o. refl))
  perform-advance (Write.submit task id args kwargs now) s =
      ap (λ b. (pos 0, b)) (board-submit task id args kwargs now s)
  perform-advance (Write.remove id queue) s = ap (λ b. (pos 0, b)) (board-delete id queue s)
  perform-advance (Write.reset id queue now) s =
      ap (λ b. (pos 0, b)) (board-index_write r self id _ queue ready now now s (λ o. refl))
  perform-advance (Write.prune_index queue st bound) s =
      ap (λ b. (pos 0, b)) (board-apply _ s (λ k h. refl))
  perform-advance (Write.promote queue id level fields) s =
      ap (λ b. (pos 0, b)) (board-promote _ _ _ id fields s)
  perform-advance (Write.postpone queue id due) s =
      ap (λ b. (pos 0, b)) (board-apply _ s (λ k h. refl))
  perform-advance (Write.acknowledge message) s =
      ap (λ b. (pos 0, b)) (board-quiet r self (ack message) s (λ k h. refl))

  -- Whatever writes the clients send, in whatever order they reach the server, the replies are those of
  -- the board, and the statuses stored are those of the board.
  pub perform_all-advance_all :
      (ws : List Write) (s : S)
      → let (replies, s') = perform_all r self ws s in
        (replies, board r self s') ≡ advance_all ws (board r self s)
  unfolding perform_all advance_all
  perform_all-advance_all [] s = refl
  perform_all-advance_all (w ∷ ws) s =
      let reply : ℤ = (perform r self w s).0 in
      ap (λ (p : List ℤ × Board). (reply ∷ p.0, p.1))
        (perform_all-advance_all ws (perform r self w s).1)
      ∙ ap (λ (p : ℤ × Board). let later = advance_all ws p.1 in (p.0 ∷ later.0, later.1))
          (perform-advance w s)
