-- ===== src/Interleaved/Hashes.antt =====
-- What each script and each transaction does to the status fields.
use django_tasks_redis.Prelude.{
  ℕ, ◌≡◌, refl, fun_ext, Option, some, List, [], ◌∷◌, Text, text_eq, any, Option-cases, Bool-cases,
  inl, inr,
}
use django_tasks_redis.Prelude.Int.{ℤ, pos, negsuc}
use django_tasks_redis.Task.{Field, Hash, Value, Status, running, state, status, has_status}
use django_tasks_redis.Redis.{
  Key, Command, hset, Server, execute, hash_effects, hgetall-execute, hset_field,
}
use django_tasks_redis.Utils.Keys.{text_eq-get_result_key}
use django_tasks_redis.Backend.Config.{Config, result_key, status_index_keys, status_index_cutoff}
use django_tasks_redis.Backend.Index.{index_status}
use django_tasks_redis.Backend.Index.Effect.{
  index_status-eq-lua_index_status, hash_effects-index_status,
}
use django_tasks_redis.Backend.Scripts.{
  claim_script, transition_script, index_task_script, zrem_all,
}
use django_tasks_redis.Backend.Scripts.Transition.{transition_script_lem, transition_script_missing}
use django_tasks_redis.Backend.Claim.Claimed.{claim_fields_status}
use django_tasks_redis.Interleaved.Board.{Board, board, put, move, still}

pub hash_effects-zrem_all :
    (id : Text) (keys : List Key) (k : Key) (h : Option Hash)
    → hash_effects (zrem_all id keys) k h ≡ h
unfolding zrem_all
hash_effects-zrem_all id [] k h = refl
hash_effects-zrem_all id (key ∷ keys) k h = hash_effects-zrem_all id keys k h

module _ {S : Type 0} (r : Server S) (self : Config) where
  -- A transaction that writes fields of one hash, the status among them, and then no hash.
  pub board-write :
      (id : Text) (fields : List (Field × Value)) (st : Status) (cs : List Command) (s : S)
      → ((k : Key) (h : Option Hash) → hash_effects cs k h ≡ h)
      → ((o : Option Value) → hset_field fields status o ≡ some (state st))
      → board r self (execute r (hset (result_key self id) fields ∷ cs) s)
        ≡ put id (some (state st)) (board r self s)
  board-write id fields st cs s quiet given = fun_ext λ m. elim (Bool-cases (text_eq id m)) [
    | inl same ↦ rw (hgetall-execute, quiet, text_eq-get_result_key, same) (given _)
    | inr other ↦ rw (hgetall-execute, quiet, text_eq-get_result_key, other)
  ]

  pub board-quiet :
      (cs : List Command) (s : S)
      → ((k : Key) (h : Option Hash) → hash_effects cs k h ≡ h)
      → board r self (execute r cs s) ≡ board r self s
  board-quiet cs s quiet = fun_ext λ m. rw (hgetall-execute, quiet)

  pub board-index_write :
      (id : Text) (fields : List (Field × Value)) (queue : Text) (st : Status) (since now : ℕ)
      (s : S)
      → ((o : Option Value) → hset_field fields status o ≡ some (state st))
      → board r self
          (execute r (hset (result_key self id) fields ∷ index_status self id queue st since now) s)
        ≡ put id (some (state st)) (board r self s)
  board-index_write id fields queue st since now s given =
      board-write id fields st (index_status self id queue st since now) s
        (hash_effects-index_status self id queue st since now) given

  -- A reply, and the board after it.
  abbrev pub seen : ℤ × S → ℤ × Board
  seen (reply, s) = (reply, board r self s)

  abbrev pub keys : Text → Text → List Key
  keys id queue = result_key self id ∷ status_index_keys self (some queue)

  pub claim_script-board :
      (id queue worker : Text) (now : ℕ) (allowed : List Status) (s : S)
      → seen (
          claim_script r
            (keys id queue)
            now
            worker
            running
            id
            now
            (status_index_cutoff self running now)
            allowed
            s)
        ≡ move (negsuc 0) id running allowed (board r self s id) (board r self s)
  unfolding claim_script move
  claim_script-board id queue worker now allowed s = elim (Option-cases (board r self s id)) [
    | inl missing ↦ rw missing refl
    | inr (v, stored) ↦ elim (Bool-cases (any (has_status (some v)) allowed)) [
      | inl free ↦ rw (
        stored,
        free,
        index_status-eq-lua_index_status,
        board-index_write id _ queue running now now s (claim_fields_status _ _ now worker running),
      )
      | inr taken ↦ rw (stored, taken) refl
    ]
  ]

  pub transition_script-board :
      (id queue : Text) (to_status : Status) (now : ℕ) (allowed : List Status) (s : S)
      → seen (
          transition_script r
            (keys id queue)
            to_status
            id
            now
            (status_index_cutoff self to_status now)
            allowed
            s)
        ≡ move (pos 0) id to_status allowed (board r self s id) (board r self s)
  unfolding move
  transition_script-board id queue to_status now allowed s =
      elim (Option-cases (board r self s id)) [
        | inl missing ↦
            rw
              (
                transition_script_missing r (keys id queue) to_status id now
                    (status_index_cutoff self to_status now) allowed s missing,
                missing,
              )
              refl
        | inr (v, stored) ↦
            let step =
              transition_script_lem r (keys id queue) to_status id now
                (status_index_cutoff self to_status now) s v allowed stored in
            elim (Bool-cases (any (has_status (some v)) allowed)) [
              | inl free ↦ rw (
                step,
                stored,
                free,
                index_status-eq-lua_index_status,
                board-index_write id _ queue to_status now now s (λ o. refl),
              )
              | inr taken ↦ rw (step, stored, taken) refl
            ]
      ]

  pub index_task_script-board :
      (id queue : Text) (read_status : Status) (since now : ℕ) (s : S)
      → seen (
          index_task_script r
            (keys id queue)
            id
            read_status
            since
            (status_index_cutoff self read_status now)
            s)
        ≡ (still read_status (board r self s id), board r self s)
  unfolding index_task_script still
  index_task_script-board id queue read_status since now s =
      elim (Option-cases (board r self s id)) [
        | inl missing ↦ rw (
          missing,
          board-quiet (zrem_all id (status_index_keys self (some queue))) s
              (hash_effects-zrem_all id (status_index_keys self (some queue))),
        )
        | inr (v, stored) ↦ elim (Bool-cases (has_status (some v) read_status)) [
          | inl current ↦ rw (
            stored,
            current,
            index_status-eq-lua_index_status,
            board-quiet _ s (hash_effects-index_status self id queue read_status since now),
          )
          | inr changed ↦ rw (stored, changed)
        ]
      ]
