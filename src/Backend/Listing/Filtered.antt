-- ===== src/Backend/Listing/Filtered.antt =====
-- What a page of get_all_tasks holds (backends.py).
use mathlib.Core.List.{Perm}
use mathlib.Core.List.Perm as Permutation
use django_tasks_redis.Prelude.{
  Option, some, none, false, not, ◌||◌, ◌↔◌, text_eq_sound, text_eq_refl, ℕ, ◌≡◌, refl, sym, ap,
  ◌∙◌, Bool, true, ◌&&◌, List, [], ◌∷◌, Text, leb, length, select, map, arith, Bool-cases, inl, inr,
}
use django_tasks_redis.Prelude.Int.{ℤ, pos, negsuc, eqb_ℤ}
use django_tasks_redis.Task.{
  Hash, Value, Status, text, state, level, time, ids, errors, text_of, status_eq_sound,
  status_eq_refl, queue_name, status, task_path, priority,
}
use django_tasks_redis.Backend.Listing.{
  skips_text, skips_status, skips_priority, Filters, matches, enqueued_key, insert_desc, sort_desc,
  take, drop, get_all_tasks,
}

-- Later tasks come first.
abbrev pub newest_first : List Hash → Bool
newest_first [] = true
newest_first (t ∷ []) = true
newest_first (t ∷ u ∷ ts) = leb (enqueued_key u) (enqueued_key t) && newest_first (u ∷ ts)

newest_first-cons :
    (t u : Hash) (ts : List Hash)
    → leb (enqueued_key u) (enqueued_key t) ≡ true
    → newest_first (u ∷ ts) ≡ true
    → newest_first (t ∷ u ∷ ts) ≡ true
newest_first-cons t u ts h hs = ground (arith, h, hs)

newest_first-tail :
    (t : Hash) (ts : List Hash) → newest_first (t ∷ ts) ≡ true → newest_first ts ≡ true
newest_first-tail t [] h = refl
newest_first-tail t (u ∷ ts) h = ground (arith, h)

newest_first-insert_desc :
    (t : Hash) (ts : List Hash) → newest_first ts ≡ true → newest_first (insert_desc t ts) ≡ true
unfolding insert_desc
newest_first-insert_desc t [] h = refl
newest_first-insert_desc t (u ∷ []) h = elim (Bool-cases (leb (enqueued_key u) (enqueued_key t))) [
  | inl first ↦ rw first (ground (arith, first))
  | inr later ↦ rw later (ground (arith, later))
]
newest_first-insert_desc t (u ∷ v ∷ ts) h =
    let rest = newest_first-insert_desc t (v ∷ ts) (newest_first-tail u (v ∷ ts) h) in
    elim (Bool-cases (leb (enqueued_key u) (enqueued_key t))) [
      | inl first ↦ rw first (newest_first-cons t u (v ∷ ts) first h)
      | inr later ↦ elim (Bool-cases (leb (enqueued_key v) (enqueued_key t))) [
        | inl second ↦
            rw (later, second)
              (newest_first-cons u t (v ∷ ts) (ground (arith, later))
                (newest_first-cons t v ts second (newest_first-tail u (v ∷ ts) h)))
        | inr third ↦
            let placed : insert_desc t (v ∷ ts) ≡ v ∷ insert_desc t ts = rw third refl in
            let sorted : newest_first (v ∷ insert_desc t ts) ≡ true =
              sym (ap newest_first placed) ∙ rest in
            rw (later, third) (newest_first-cons u v (insert_desc t ts) (ground (arith, h)) sorted)
      ]
    ]

newest_first-sort_desc : (ts : List Hash) → newest_first (sort_desc ts) ≡ true
unfolding sort_desc
newest_first-sort_desc [] = refl
newest_first-sort_desc (t ∷ ts) =
    newest_first-insert_desc t (sort_desc ts) (newest_first-sort_desc ts)

insert_desc-Perm : (t : Hash) (ts : List Hash) → Perm (insert_desc t ts) (t ∷ ts)
unfolding insert_desc
insert_desc-Perm t [] = Permutation.refl (t ∷ [])
insert_desc-Perm t (u ∷ ts) = elim (Bool-cases (leb (enqueued_key u) (enqueued_key t))) [
  | inl first ↦ rw first (Permutation.refl (t ∷ u ∷ ts))
  | inr later ↦
      rw later
        (Permutation.trans (Permutation.cons u (insert_desc-Perm t ts)) (Permutation.swap t u ts))
]

sort_desc-Perm : (ts : List Hash) → Perm (sort_desc ts) ts
unfolding sort_desc
sort_desc-Perm [] = Permutation.nil
sort_desc-Perm (t ∷ ts) =
    Permutation.trans (insert_desc-Perm t (sort_desc ts)) (Permutation.cons t (sort_desc-Perm ts))

-- What a filter on a text field asks of the field; an empty text asks nothing.
abbrev pub AsksText : Text → Option Value → Type 0
AsksText [] v = Unit
AsksText (c ∷ cs) v = v ≡ some (text (c ∷ cs))

abbrev pub AsksStatus : Option Status → Option Value → Type 0
AsksStatus none v = Unit
AsksStatus (some st) v = v ≡ some (state st)

abbrev pub AsksPriority : Option ℤ → Option Value → Type 0
AsksPriority none v = Unit
AsksPriority (some n) v = v ≡ some (level n)

-- A task of the queue, the status, the path and the priority that are asked for.
abbrev pub Passes : Filters → Hash → Type 0
Passes filters h =
    AsksText filters.queue (h queue_name)
    × AsksStatus filters.wanted_status (h status)
    × AsksText filters.path (h task_path)
    × AsksPriority filters.wanted_priority (h priority)

text_of-eq : (v : Value) (c : ℕ) (cs : Text) → text_of v ≡ c ∷ cs → v ≡ text (c ∷ cs)
unfolding text_of
text_of-eq (text t) c cs h = ap text h
text_of-eq (state st) c cs h = cc
text_of-eq (level n) c cs h = cc
text_of-eq (time t) c cs h = cc
text_of-eq (ids l) c cs h = cc
text_of-eq (errors l) c cs h = cc

skips_text_iff :
    (wanted : Text) (v : Option Value) → (skips_text wanted v ≡ false) ↔ AsksText wanted v
unfolding text_of
skips_text_iff [] v = (λ h. tt, λ h. refl)
skips_text_iff (c ∷ cs) none = (λ h. cc, λ h. cc)
skips_text_iff (c ∷ cs) (some v) = (
  λ h. ap some (text_of-eq v c cs (text_eq_sound (text_of v) (c ∷ cs) (ground (arith, h)))),
  λ h. ap (skips_text (c ∷ cs)) h ∙ rw text_eq_refl refl,
)

eqb_ℤ_sound : (m n : ℤ) → eqb_ℤ m n ≡ true → m ≡ n
eqb_ℤ_sound (pos m) (pos n) h = ap pos (ground (arith, h))
eqb_ℤ_sound (pos m) (negsuc n) h = ground (arith, h)
eqb_ℤ_sound (negsuc m) (pos n) h = ground (arith, h)
eqb_ℤ_sound (negsuc m) (negsuc n) h = ap negsuc (ground (arith, h))

eqb_ℤ_refl : (n : ℤ) → eqb_ℤ n n ≡ true
eqb_ℤ_refl (pos n) = ground arith
eqb_ℤ_refl (negsuc n) = ground arith

skips_status_iff :
    (wanted : Option Status) (v : Option Value)
    → (skips_status wanted v ≡ false) ↔ AsksStatus wanted v
skips_status_iff none v = (λ h. tt, λ h. refl)
skips_status_iff (some st) none = (λ h. cc, λ h. cc)
skips_status_iff (some st) (some (state a)) = (
  λ h. ap (λ x. some (state x)) (status_eq_sound a st (ground (arith, h))),
  λ h. ap (skips_status (some st)) h ∙ rw status_eq_refl refl,
)
skips_status_iff (some st) (some (text t)) = (λ h. cc, λ h. cc)
skips_status_iff (some st) (some (level n)) = (λ h. cc, λ h. cc)
skips_status_iff (some st) (some (time t)) = (λ h. cc, λ h. cc)
skips_status_iff (some st) (some (ids l)) = (λ h. cc, λ h. cc)
skips_status_iff (some st) (some (errors l)) = (λ h. cc, λ h. cc)

skips_priority_iff :
    (wanted : Option ℤ) (v : Option Value)
    → (skips_priority wanted v ≡ false) ↔ AsksPriority wanted v
skips_priority_iff none v = (λ h. tt, λ h. refl)
skips_priority_iff (some n) none = (λ h. cc, λ h. cc)
skips_priority_iff (some n) (some (level m)) = (
  λ h. ap (λ x. some (level x)) (eqb_ℤ_sound m n (ground (arith, h))),
  λ h. ap (skips_priority (some n)) h ∙ rw eqb_ℤ_refl refl,
)
skips_priority_iff (some n) (some (text t)) = (λ h. cc, λ h. cc)
skips_priority_iff (some n) (some (state a)) = (λ h. cc, λ h. cc)
skips_priority_iff (some n) (some (time t)) = (λ h. cc, λ h. cc)
skips_priority_iff (some n) (some (ids l)) = (λ h. cc, λ h. cc)
skips_priority_iff (some n) (some (errors l)) = (λ h. cc, λ h. cc)

none_of :
    (a b c d : Bool)
    → not (a || b || c || d) ≡ true
    → (a ≡ false) × (b ≡ false) × (c ≡ false) × (d ≡ false)
none_of a b c d h = (ground (arith, h), ground (arith, h), ground (arith, h), ground (arith, h))

matches_iff : (filters : Filters) (h : Hash) → (matches filters h ≡ true) ↔ Passes filters h
unfolding matches
matches_iff filters h =
    let queue_iff = skips_text_iff filters.queue (h queue_name) in
    let status_iff = skips_status_iff filters.wanted_status (h status) in
    let path_iff = skips_text_iff filters.path (h task_path) in
    let priority_iff = skips_priority_iff filters.wanted_priority (h priority) in
    (
      λ e.
          let (a, b, c, d) = none_of _ _ _ _ e in
          (queue_iff.0 a, status_iff.0 b, path_iff.0 c, priority_iff.0 d),
      λ asked.
          let (a, b, c, d) = asked in
          rw (queue_iff.1 a, status_iff.1 b, path_iff.1 c, priority_iff.1 d) refl,
    )

-- Of the stored tasks, those match that have the queue, the status, the path and the priority that are
-- asked for, where they are. Put in an order in which the newest come first, the page is what is
-- left of them past the offset, up to the limit, and the total is their number.
pub get_all_tasks-page :
    (filters : Filters) (offset limit : ℕ) (stored : List (Text × Hash))
    → let (page, total) = get_all_tasks filters offset limit stored in
      let all_stored = map (λ (item : Text × Hash). item.1) stored in
      ((h : Hash) → (matches filters h ≡ true) ↔ Passes filters h)
      × (tasks : List Hash) × Perm tasks (select (matches filters) all_stored)
      × (newest_first tasks ≡ true)
      × (page ≡ take limit (drop offset tasks))
      × (total ≡ length tasks)
unfolding get_all_tasks
get_all_tasks-page filters offset limit stored =
    let matching = select (matches filters) (map (λ (item : Text × Hash). item.1) stored) in
    (
      matches_iff filters,
      sort_desc matching,
      sort_desc-Perm matching,
      newest_first-sort_desc matching,
      refl,
      refl,
    )
