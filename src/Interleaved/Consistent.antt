-- ===== src/Interleaved/Consistent.antt =====
-- The index never says of a task what its hash does not say, whatever the clients do.
use django_tasks_redis.Prelude.{
  ℕ, ◌≡◌, refl, ap, Bool, true, false, Option, none, some, Text, arith, text_eq, text_eq_sound,
  if◌then◌else◌, Bool-cases, inl, inr,
}
use django_tasks_redis.Prelude.Int.{ℤ}
use django_tasks_redis.Task.{Status, Value, status_eq, status_eq_sound, has_status}
use django_tasks_redis.Redis.{Server}
use django_tasks_redis.Backend.Config.{Config, index_key}
use django_tasks_redis.Backend.Index.Effect.{moved}
use django_tasks_redis.Interleaved.Board.{Board, board}

-- A score in the set of a status, and the status field of the task.
abbrev pub agrees : Option ℕ → Option Value → Status → Bool
agrees none v tu = true
agrees (some score) v tu = has_status v tu

agrees-moved :
    (same : Bool) (since : ℕ) (cutoff : Option ℤ) (o : Option ℕ) (v : Option Value) (tu : Status)
    → agrees o v tu ≡ true
    → agrees (moved true same false since cutoff o) v tu ≡ true
agrees-moved false since cutoff o v tu h = h
agrees-moved true since none o v tu h = h
agrees-moved true since (some bound) none v tu h = refl
agrees-moved true since (some bound) (some t) v tu h = ground arith

-- Whatever `v` is, if it is the status of the move.
agrees_self :
    (tu st : Status) (since : ℕ) (cutoff : Option ℤ) (o : Option ℕ) (v : Option Value)
    → has_status v st ≡ true
    → agrees (moved true (status_eq tu st) true since cutoff o) v tu ≡ true
agrees_self tu st since cutoff o v given = elim (Bool-cases (status_eq tu st)) [
  | inl same ↦ rw (same, status_eq_sound tu st same) given
  | inr other ↦ rw other refl
]

module _ {S : Type 0} (r : Server S) (self : Config) where
  -- Of every task and every status: if the task is in the backend-wide set of the status, then its
  -- hash is stored and has that status.
  abbrev pub Consistent : S → Type 0
  Consistent s =
      (id : Text) (tu : Status)
      → agrees (r.zscore s (index_key self none tu) id) (board r self s id) tu ≡ true

  -- A task that moves with its index entry.
  pub settled-Consistent :
      (id : Text) (st : Status) (since : ℕ) (cutoff : Option ℤ) (s s' : S) (b : Board)
      → has_status (b id) st ≡ true
      → ((m : Text) → text_eq id m ≡ false → b m ≡ board r self s m)
      → board r self s' ≡ b
      → ((tu : Status) (m : Text)
          → r.zscore s' (index_key self none tu) m
            ≡ moved true
                (status_eq tu st)
                (text_eq id m)
                since
                cutoff
                (r.zscore s (index_key self none tu) m))
      → Consistent s
      → Consistent s'
  settled-Consistent id st since cutoff s s' b given others fields scores before m tu =
      let shown = ap (λ (c : Board). c m) fields in
      elim (Bool-cases (text_eq id m)) [
        | inl same ↦
            rw (scores, shown, same, ← text_eq_sound id m same)
              (agrees_self tu st since cutoff _ (b id) given)
        | inr other ↦
            rw (scores, shown, other, others m other)
              (agrees-moved _ since cutoff _ _ tu (before m tu))
      ]

  -- A task that leaves the index, and maybe the store.
  pub removed-Consistent :
      (id : Text) (s s' : S)
      → ((m : Text) → text_eq id m ≡ false → board r self s' m ≡ board r self s m)
      → ((tu : Status) (m : Text)
          → r.zscore s' (index_key self none tu) m
            ≡ (if text_eq id m then none else r.zscore s (index_key self none tu) m))
      → Consistent s
      → Consistent s'
  removed-Consistent id s s' others scores before m tu = elim (Bool-cases (text_eq id m)) [
    | inl same ↦ rw (scores, same) refl
    | inr other ↦ rw (scores, other, others m other) (before m tu)
  ]

  -- A write that changes no status and at most drops scores of one set.
  pub quiet-Consistent :
      (s s' : S)
      → board r self s' ≡ board r self s
      → ((tu : Status) (m : Text)
          → (same : Bool) × (cutoff : Option ℤ) × (r.zscore s' (index_key self none tu) m
              ≡ moved true same false 0 cutoff (r.zscore s (index_key self none tu) m)))
      → Consistent s
      → Consistent s'
  quiet-Consistent s s' fields scores before m tu =
      let (same, cutoff, score) = scores tu m in
      rw (score, ap (λ (c : Board). c m) fields) (agrees-moved same 0 cutoff _ _ tu (before m tu))
