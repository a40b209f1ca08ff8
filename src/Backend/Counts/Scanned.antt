-- ===== src/Backend/Counts/Scanned.antt =====
-- The counts of a scan agree with the stored tasks and with one another.
use django_tasks_redis.Prelude.{
  ℕ, ◌+◌, ◌≤◌, ◌≡◌, refl, sym, ap, ◌∙◌, Bool, true, false, ◌&&◌, Option, none, some, List, [], ◌∷◌,
  Text, ltb, leb, Result, ok, raise, ok_inj, select, length, arith, Bool-cases, inl, inr,
  if◌then◌else◌,
}
use django_tasks_redis.Prelude.Checked.{first-ok}
use django_tasks_redis.Task.{Hash, Value, Status, ready, status, has_status}
use django_tasks_redis.Backend.Counts.{
  Tally, zero_tally, in_queue, count_status, count_pending, count_waiting, scan_task, scan_from,
  scan_status_counts, queue_stats, waiting_since, earliest, latest,
}

-- A bound on the waiting time that a scan reports.
abbrev pub is_due : Option ℕ → ℕ → Bool
is_due none now = true
is_due (some t) now = leb t now

-- The oldest is reported exactly if the newest is, and is not the later one.
abbrev pub in_order : Option ℕ → Option ℕ → Bool
in_order none none = true
in_order (some o) (some n) = leb o n
in_order _ _ = false

abbrev pub matches : Text → Status → Hash → Bool
matches queue st h = in_queue queue h && has_status (h status) st

module _ (queue : Text) (now : ℕ) where
  -- The tally `n` extends `m` by the task `h`.
  abbrev Counts : Hash → Tally → Tally → Type 0
  Counts h m n = (st : Status) → n.counts st ≡ (if matches queue st h then 1 else 0) + m.counts st

  abbrev Sound : Tally → Type 0
  Sound n =
      (n.pending ≤ n.counts ready)
      × (is_due n.newest now ≡ true)
      × (in_order n.oldest n.newest ≡ true)

  bounds-latest :
      (o n : Option ℕ) (t : ℕ)
      → ltb now t ≡ false
      → is_due n now ≡ true
      → in_order o n ≡ true
      → (is_due (latest n t) now ≡ true) × (in_order (earliest o t) (latest n t) ≡ true)
  bounds-latest none none t soon due ordered = (ground arith, ground arith)
  bounds-latest none (some n) t soon due ordered = cc
  bounds-latest (some o) none t soon due ordered = cc
  bounds-latest (some o) (some n) t soon due ordered = (ground arith, ground arith)

  count_pending-Sound :
      (since : Option ℕ) (v : Option Value) (m : Tally)
      → has_status v ready ≡ true
      → Sound m
      → Sound (count_pending since now (count_status v m))
  unfolding count_pending
  count_pending-Sound none v m idle (few, due, ordered) = rw idle (omega (arith, few), due, ordered)
  count_pending-Sound (some t) v m idle (few, due, ordered) = elim (Bool-cases (ltb now t)) [
    | inl later ↦ rw (later, idle) (omega (arith, few), due, ordered)
    | inr soon ↦
        let bounds = bounds-latest m.oldest m.newest t soon due ordered in
        rw (soon, idle) (omega (arith, few), bounds.0, bounds.1)
  ]

  count_pending-counts :
      (since : Option ℕ) (m : Tally) (st : Status)
      → (count_pending since now m).counts st ≡ m.counts st
  unfolding count_pending
  count_pending-counts none m st = refl
  count_pending-counts (some t) m st = elim (Bool-cases (ltb now t)) [ inl e ↦ rw e | inr e ↦ rw e ]

  count_waiting_lem :
      (since : Result (Option ℕ)) (v : Option Value) (m n : Tally)
      → has_status v ready ≡ true
      → count_waiting since now (count_status v m) ≡ ok n
      → ((st : Status) → n.counts st ≡ (count_status v m).counts st) × (Sound m → Sound n)
  unfolding count_waiting
  count_waiting_lem (raise x) v m n idle e = cc
  count_waiting_lem (ok since) v m n idle e =
      let same = ok_inj (count_pending since now (count_status v m)) n e in
      (
        λ st.
            ap (λ (n : Tally). n.counts st) (sym same)
            ∙ count_pending-counts since (count_status v m) st,
        λ sound. rw (sym same) (count_pending-Sound since v m idle sound),
      )

  not_ready-Sound :
      (v : Option Value) (m : Tally)
      → has_status v ready ≡ false
      → Sound m
      → Sound (count_status v m)
  not_ready-Sound v m busy (few, due, ordered) = rw busy (omega (arith, few), due, ordered)

  scan_task_lem :
      (h : Hash) (m n : Tally) → scan_task queue now h m ≡ ok n → Counts h m n × (Sound m → Sound n)
  unfolding scan_task
  scan_task_lem h m n e = elim (Bool-cases (in_queue queue h)) [
    | inl here ↦ elim (Bool-cases (has_status (h status) ready)) [
      | inl idle ↦
          let waiting : count_waiting (waiting_since h) now (count_status (h status) m) ≡ ok n =
            sym (rw (here, idle) refl) ∙ e in
          let (same, sound) = count_waiting_lem (waiting_since h) (h status) m n idle waiting in
          (λ st. rw (same st, here) refl, sound)
      | inr busy ↦
          let same : count_status (h status) m ≡ n = ok_inj _ n (sym (rw (here, busy) refl) ∙ e) in
          (
            λ st. ap (λ (n : Tally). n.counts st) (sym same) ∙ rw here refl,
            λ sound. rw (sym same) (not_ready-Sound (h status) m busy sound),
          )
    ]
    | inr elsewhere ↦
        let same : m ≡ n = ok_inj m n (sym (rw elsewhere refl) ∙ e) in
        (
          λ st. ap (λ (n : Tally). n.counts st) (sym same) ∙ rw elsewhere (omega arith),
          λ sound. rw (sym same) sound,
        )
  ]

  scan_from_lem :
      (tasks : List Hash) (m n : Tally)
      → scan_from queue now tasks m ≡ ok n
      → ((st : Status) → n.counts st ≡ length (select (matches queue st) tasks) + m.counts st)
        × (Sound m → Sound n)
  unfolding scan_from
  scan_from_lem [] m n e =
      let same = ok_inj m n e in
      (λ st. ap (λ (n : Tally). n.counts st) (sym same) ∙ omega arith, λ sound. rw (sym same) sound)
  scan_from_lem (h ∷ tasks) m n e =
      let (k, e0, e1) = first-ok _ (scan_task queue now h m) e in
      let (first, first_sound) = scan_task_lem h m k e0 in
      let (rest, rest_sound) = scan_from_lem tasks k n e1 in
      (λ st. rest st ∙ rw (first st) (ground arith), λ sound. rest_sound (first_sound sound))

  -- For a scan that ends: its counts are the numbers of stored tasks in each status, of the queue that
  -- is asked for; the pending tasks and the delayed ones add up to the READY ones; the newest waiting
  -- time that is reported has come, and the oldest is not after it.
  pub scan_status_counts_add_up :
      (tasks : List Hash) (tally : Tally)
      → scan_status_counts queue now tasks ≡ ok tally
      → let stats = queue_stats tally in
        ((st : Status) → tally.counts st ≡ length (select (matches queue st) tasks))
        × (stats.pending_count + stats.delayed_count ≡ tally.counts ready)
        × (is_due stats.newest_pending_waiting_since now ≡ true)
        × (in_order stats.oldest_pending_waiting_since stats.newest_pending_waiting_since ≡ true)
  unfolding scan_status_counts queue_stats
  scan_status_counts_add_up tasks tally e =
      let (counted, sound) = scan_from_lem tasks zero_tally tally e in
      let (few, due, ordered) = sound (omega arith, refl, refl) in
      (λ st. counted st ∙ omega arith, omega (arith, few), due, ordered)
