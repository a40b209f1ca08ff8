-- ===== src/Utils/Keys.antt =====
-- The keys of the status index are apart from one another (utils.py, get_status_index_key).
use mathlib.Core.Bool.{false≢true}
use django_tasks_redis.Prelude.{
  ℕ, suc, ◌+◌, ◌≡◌, ◌≢◌, refl, sym, [], ap, ◌∙◌, Option, none, some, ◌∷◌, ◌++◌, arith, Text, codes,
  last, last-append, length, length-append, Bool, true, false, ◌&&◌, text_eq, text_eq_refl,
  text_eq_ne, text_eq-append_left, text_eq-append_right, Bool-cases, inl, inr,
}
use django_tasks_redis.Task.{
  Status, ready, running, successful, failed, status_eq, status_eq_sound, status_eq_refl,
}
use django_tasks_redis.Utils.{
  get_delayed_key, get_result_key, get_status_index_key, status_text, scoped,
}

abbrev last_of : Status → ℕ
last_of st = last (status_text st)

last_of_inj : (st tu : Status) → last_of st ≡ last_of tu → st ≡ tu
last_of_inj st tu h = ground arith

module _ (p b : Text) where
  last-scoped : (q : Text) (c : ℕ) (t : Text) → last (scoped p b (q ++ c ∷ t)) ≡ last (c ∷ t)
  last-scoped q c t =
      last-append p 58 (b ++ 58 ∷ (q ++ c ∷ t))
      ∙ last-append (58 ∷ b) 58 (q ++ c ∷ t)
      ∙ last-append (58 ∷ q) c t

  last-get_status_index_key :
      (st : Status) (q : Option Text) → last (get_status_index_key p b st q) ≡ last_of st
  unfolding get_status_index_key
  last-get_status_index_key ready none = last-scoped (codes "status_index") 58 (status_text ready)
  last-get_status_index_key running none =
      last-scoped (codes "status_index") 58 (status_text running)
  last-get_status_index_key successful none =
      last-scoped (codes "status_index") 58 (status_text successful)
  last-get_status_index_key failed none = last-scoped (codes "status_index") 58 (status_text failed)
  last-get_status_index_key ready (some q) =
      last-scoped q 58 (codes "status_index:" ++ status_text ready)
  last-get_status_index_key running (some q) =
      last-scoped q 58 (codes "status_index:" ++ status_text running)
  last-get_status_index_key successful (some q) =
      last-scoped q 58 (codes "status_index:" ++ status_text successful)
  last-get_status_index_key failed (some q) =
      last-scoped q 58 (codes "status_index:" ++ status_text failed)

  -- Sets of different statuses have different keys.
  pub status_index_key_inj :
      (st tu : Status) (q q' : Option Text)
      → get_status_index_key p b st q ≡ get_status_index_key p b tu q'
      → st ≡ tu
  status_index_key_inj st tu q q' h =
      last_of_inj st tu
        (sym (last-get_status_index_key st q) ∙ ap last h ∙ last-get_status_index_key tu q')

  length-scoped : (t : Text) → length (scoped p b t) ≡ length p + suc (length b + suc (length t))
  length-scoped t =
      length-append p (58 ∷ (b ++ 58 ∷ t)) ∙ ap (λ n. length p + suc n) (length-append b (58 ∷ t))

  -- The backend-wide set of a status is not the set of a queue.
  pub status_index_key_wide :
      (st : Status) (q : Text)
      → get_status_index_key p b st none ≢ get_status_index_key p b st (some q)
  unfolding get_status_index_key
  status_index_key_wide st q h =
      let e = ap length h in
      let tail = codes ":status_index:" ++ status_text st in
      omega (
        arith,
        e,
        length-append (codes ":status_index:") (status_text st),
        length-append (codes "status_index:") (status_text st),
        length-scoped (codes "status_index:" ++ status_text st),
        length-scoped (q ++ tail),
        length-append q tail,
      )

-- The queue a set is scoped to, none for the backend-wide sets.
abbrev pub queue_eq : Option Text → Option Text → Bool
queue_eq none none = true
queue_eq (some q) (some q') = text_eq q q'
queue_eq _ _ = false

module _ (p b : Text) where
  text_eq-scoped : (s t : Text) → text_eq (scoped p b s) (scoped p b t) ≡ text_eq s t
  text_eq-scoped s t =
      text_eq-append_left p (58 ∷ (b ++ 58 ∷ s)) (58 ∷ (b ++ 58 ∷ t))
      ∙ text_eq-append_left (58 ∷ b) (58 ∷ s) (58 ∷ t)
      ∙ text_eq-append_left (58 ∷ []) s t

  same_status :
      (st : Status) (q q' : Option Text)
      → text_eq (get_status_index_key p b st q) (get_status_index_key p b st q') ≡ queue_eq q q'
  same_status st none none = text_eq_refl (get_status_index_key p b st none)
  same_status st none (some q) = text_eq_ne _ _ (status_index_key_wide p b st q)
  same_status st (some q) none = text_eq_ne _ _ (λ e. status_index_key_wide p b st q (sym e))
  same_status st (some q) (some q') =
      unfold get_status_index_key in
      text_eq-scoped (q ++ (codes ":status_index:" ++ status_text st))
        (q' ++ (codes ":status_index:" ++ status_text st))
      ∙ text_eq-append_right q q' (codes ":status_index:" ++ status_text st)

  -- Two sets of the index have one key exactly when status and queue agree.
  pub text_eq-status_index_key :
      (st tu : Status) (q q' : Option Text)
      → text_eq (get_status_index_key p b st q) (get_status_index_key p b tu q')
        ≡ (status_eq st tu && queue_eq q q')
  text_eq-status_index_key st tu q q' = elim (Bool-cases (status_eq st tu)) [
    | inl same ↦ rw (same, ← status_eq_sound st tu same) (same_status st q q')
    | inr other ↦ rw other (
        text_eq_ne _ _ (λ e. false≢true (
          sym other
          ∙ ap (status_eq st) (sym (status_index_key_inj p b st tu q q' e))
          ∙ status_eq_refl st)))
  ]

  pub text_eq-get_result_key :
      (s t : Text) → text_eq (get_result_key p b s) (get_result_key p b t) ≡ text_eq s t
  unfolding get_result_key
  text_eq-get_result_key s t =
      text_eq-scoped (codes "result:" ++ s) (codes "result:" ++ t)
      ∙ text_eq-append_left (codes "result:") s t

  last_of-ne-d : (st : Status) → last_of st ≢ b'd'
  last_of-ne-d st h = ground arith

  last-get_delayed_key : (queue : Text) → last (get_delayed_key p b queue) ≡ b'd'
  unfolding get_delayed_key
  last-get_delayed_key queue = last-scoped p b queue 58 (codes "delayed")

  -- The set of the delayed tasks of a queue is no set of the index.
  delayed_key-ne-status_index_key :
      (st : Status) (q : Option Text) (queue : Text)
      → get_status_index_key p b st q ≢ get_delayed_key p b queue
  delayed_key-ne-status_index_key st q queue e =
      last_of-ne-d st
        (sym (last-get_status_index_key p b st q) ∙ ap last e ∙ last-get_delayed_key queue)

  pub text_eq-delayed_key :
      (st : Status) (q : Option Text) (queue : Text)
      → (text_eq (get_status_index_key p b st q) (get_delayed_key p b queue) ≡ false)
        × (text_eq (get_delayed_key p b queue) (get_status_index_key p b st q) ≡ false)
  text_eq-delayed_key st q queue = (
    text_eq_ne _ _ (delayed_key-ne-status_index_key st q queue),
    text_eq_ne _ _ (λ e. delayed_key-ne-status_index_key st q queue (sym e)),
  )

  -- The hash of a task is no backend-wide set of the index.
  pub text_eq-result_key_wide :
      (id : Text) (st : Status)
      → text_eq (get_result_key p b id) (get_status_index_key p b st none) ≡ false
  unfolding get_result_key get_status_index_key text_eq
  text_eq-result_key_wide id st =
      text_eq-scoped (codes "result:" ++ id) (codes "status_index:" ++ status_text st) ∙ refl
