-- ===== src/Shutdown/Restored.antt =====
-- Leaving the context puts every handler back (shutdown.py, install, uninstall and the context manager).
use mathlib.Core.Bool.{false≢true}
use mathlib.Core.List.{append-nil, append_assoc}
use django_tasks_redis.Prelude.{
  ℕ, ◌≡◌, refl, sym, ap, ◌∙◌, Bool, true, false, not, ◌&&◌, ◌||◌, Option, none, some, List, [], ◌∷◌,
  ◌++◌, any, all, if◌then◌else◌, if_same, Bool-cases, inl, inr, or_else, ◌+◌, ltb, ◌==◌, ==_iff,
  ==_refl, arith,
}
use django_tasks_redis.Shutdown.{
  GracefulShutdown, Process, SignalHandler, sig_dfl, handle_signal_of, new, set, handle_signal,
  handle_signals, install_each, uninstall_each, install, uninstall, enter, exit, assign, has_key,
  set_handler,
}

abbrev pub contains : ℕ → List ℕ → Bool
contains k = any (λ j. j == k)

-- No signal is named twice.
abbrev pub distinct : List ℕ → Bool
distinct [] = true
distinct (k ∷ ks) = not (contains k ks) && distinct ks

if_twice {ℓ} :
    {A : Type ℓ} (b : Bool) (x y z : A)
    → (if b then x else if b then y else z) ≡ (if b then x else z)
if_twice true x y z = refl
if_twice false x y z = refl

listed_apart :
    (j k : ℕ) (ks : List ℕ) → contains j ks ≡ false → contains k ks ≡ true → (j == k) ≡ false
listed_apart j k ks absent listed = elim (Bool-cases (j == k)) [
  | inl same ↦
      absurd (false≢true (sym absent ∙ ap (λ i. contains i ks) ((==_iff j k).0 same) ∙ listed))
  | inr other ↦ other
]

has_key-append :
    (k : ℕ) (originals : List (ℕ × Option SignalHandler)) (j : ℕ) (handler : Option SignalHandler)
    → has_key k (originals ++ (j, handler) ∷ []) ≡ (has_key k originals || (j == k))
has_key-append k [] j handler = ground arith
has_key-append k (item ∷ items) j handler = ground (arith, has_key-append k items j handler)

module _ (accepts : ℕ → Bool) where
  -- The handlers that installing for some signals finds.
  abbrev found : (ℕ → Option SignalHandler) → List ℕ → List (ℕ × Option SignalHandler)
  found before [] = []
  found before (k ∷ ks) = if accepts k then (k, before k) ∷ found before ks else found before ks

  -- What a handler is put back to.
  abbrev pub restored :
      (ℕ → Option SignalHandler) → List ℕ → ℕ → Option SignalHandler → Option SignalHandler
  restored before ks k now =
      if accepts k && contains k ks then some (or_else (before k) sig_dfl) else now

  -- One more signal of the list, by whether signal.signal takes it.
  taken_step :
      (x : ℕ → Option SignalHandler) (j : ℕ) (ks : List ℕ) (k : ℕ) (now : Option SignalHandler)
      → accepts j ≡ true
      → (if accepts k && contains k ks then x k else if j == k then x j else now)
        ≡ (if accepts k && contains k (j ∷ ks) then x k else now)
  taken_step x j ks k now taken = elim (Bool-cases (j == k)) [
    | inl same ↦ rw (same, ← (==_iff j k).0 same, taken) (if_same (contains j ks) _)
    | inr other ↦ rw other refl
  ]

  refused_step :
      (x : ℕ → Option SignalHandler) (j : ℕ) (ks : List ℕ) (k : ℕ) (now : Option SignalHandler)
      → accepts j ≡ false
      → (if accepts k && contains k ks then x k else now)
        ≡ (if accepts k && contains k (j ∷ ks) then x k else now)
  refused_step x j ks k now refused = elim (Bool-cases (j == k)) [
    | inl same ↦ rw (← (==_iff j k).0 same, refused) refl
    | inr other ↦ rw other refl
  ]

  handlers-uninstall_each :
      (before : ℕ → Option SignalHandler) (ks : List ℕ) (process : Process) (k : ℕ)
      → (uninstall_each accepts (found before ks) process).handlers k
        ≡ restored before ks k (process.handlers k)
  unfolding uninstall_each
  handlers-uninstall_each before [] process k = ground arith
  handlers-uninstall_each before (j ∷ ks) process k = elim (Bool-cases (accepts j)) [
    | inl taken ↦
        let ih =
          handlers-uninstall_each before ks
            (set_handler j (some (or_else (before j) sig_dfl)) process) k in
        rw (taken, uninstall_each, taken)
          (ih
            ∙ taken_step (λ i. some (or_else (before i) sig_dfl)) j ks k (process.handlers k) taken)
    | inr refused ↦ rw refused (
        handlers-uninstall_each before ks process k
        ∙ refused_step (λ i. some (or_else (before i) sig_dfl)) j ks k (process.handlers k) refused)
  ]

  -- No signal of the list is in the dict.
  abbrev fresh : List (ℕ × Option SignalHandler) → List ℕ → Bool
  fresh originals = all (λ k. not (has_key k originals))

  fresh-append :
      (originals : List (ℕ × Option SignalHandler)) (j : ℕ) (handler : Option SignalHandler)
      (ks : List ℕ)
      → fresh originals ks ≡ true
      → contains j ks ≡ false
      → fresh (originals ++ (j, handler) ∷ []) ks ≡ true
  fresh-append originals j handler [] unknown apart = refl
  fresh-append originals j handler (k ∷ ks) unknown apart =
      ground (arith, has_key-append k originals j handler, fresh-append originals j handler ks)

  fresh_nil : (ks : List ℕ) → fresh [] ks ≡ true
  fresh_nil [] = refl
  fresh_nil (k ∷ ks) = fresh_nil ks

  install_each_lem :
      (object : ℕ) (before : ℕ → Option SignalHandler) (ks : List ℕ)
      (originals : List (ℕ × Option SignalHandler)) (process : Process)
      → distinct ks ≡ true
      → fresh originals ks ≡ true
      → ((k : ℕ) → contains k ks ≡ true → process.handlers k ≡ before k)
      → let (originals', process') = install_each accepts object ks originals process in
        (originals' ≡ originals ++ found before ks)
        × (process'.active_shutdown ≡ process.active_shutdown)
        × ((k : ℕ)
            → process'.handlers k ≡ (
                if accepts k && contains k ks
                then some (handle_signal_of object)
                else process.handlers k))
  unfolding install_each assign
  install_each_lem object before [] originals process apart unknown same =
      (sym (append-nil originals), refl, λ k. ground arith)
  install_each_lem object before (j ∷ ks) originals process apart unknown same =
      elim (Bool-cases (accepts j)) [
        | inl taken ↦
            let new_key : has_key j originals ≡ false = ground (arith, unknown) in
            let process1 = set_handler j (some (handle_signal_of object)) process in
            let (all_found, active, handlers) =
              install_each_lem object before ks (originals ++ (j, process.handlers j) ∷ []) process1
                (ground (arith, apart))
                (fresh-append originals j (process.handlers j) ks (ground (arith, unknown))
                  (ground (arith, apart)))
                (λ k listed.
                  rw (listed_apart j k ks (ground (arith, apart)) listed)
                    (same k (ground (arith, listed)))) in
            rw (taken, new_key)
              (
                all_found
                    ∙ append_assoc originals ((j, process.handlers j) ∷ []) (found before ks)
                    ∙ ap (λ h. originals ++ (j, h) ∷ found before ks)
                        (same j (ground (arith, ==_refl j))),
                active,
                λ k.
                    handlers k
                    ∙ taken_step (λ i. some (handle_signal_of object)) j ks k (process.handlers k)
                        taken,
              )
        | inr refused ↦
            let (all_found, active, handlers) =
              install_each_lem object before ks originals process (ground (arith, apart))
                (ground (arith, unknown)) (λ k listed. same k (ground arith)) in
            rw refused (
              all_found,
              active,
              λ k.
                  handlers k
                  ∙ refused_step (λ i. some (handle_signal_of object)) j ks k (process.handlers k)
                      refused,
            )
      ]

-- A signal sets no handler and forgets none.
handle_signal_keeps :
    (signum : ℕ) (self : GracefulShutdown) (process : Process)
    → let (self', process') = handle_signal signum (self, process) in
      (self'.original_handlers ≡ self.original_handlers)
      × (self'.previous_active ≡ self.previous_active)
      × (process'.handlers ≡ process.handlers)
      × (process'.active_shutdown ≡ process.active_shutdown)
unfolding handle_signal set
handle_signal_keeps signum self process =
    let forcing = not ((self.request_count + 1) == 1) && self.force_on_repeat in
    elim (Bool-cases self.event) [
      | inl again ↦ elim (Bool-cases forcing) [
        | inl now ↦ rw (again, now) (refl, refl, refl, refl)
        | inr later ↦ rw (again, later) (refl, refl, refl, refl)
      ]
      | inr first ↦ elim (Bool-cases forcing) [
        | inl now ↦ elim (Bool-cases (ltb 0 self.timeout)) [
          | inl timed ↦ rw (first, now, timed) (refl, refl, refl, refl)
          | inr untimed ↦ rw (first, now, untimed) (refl, refl, refl, refl)
        ]
        | inr later ↦ elim (Bool-cases (ltb 0 self.timeout)) [
          | inl timed ↦ rw (first, later, timed) (refl, refl, refl, refl)
          | inr untimed ↦ rw (first, later, untimed) (refl, refl, refl, refl)
        ]
      ]
    ]

handle_signals_keep :
    (arriving : List ℕ) (state : GracefulShutdown × Process)
    → let (self', process') = handle_signals arriving state in
      (self'.original_handlers ≡ state.0.original_handlers)
      × (self'.previous_active ≡ state.0.previous_active)
      × (process'.handlers ≡ state.1.handlers)
      × (process'.active_shutdown ≡ state.1.active_shutdown)
unfolding handle_signals
handle_signals_keep [] state = (refl, refl, refl, refl)
handle_signals_keep (signum ∷ later) state =
    let (originals, previous, handlers, active) =
      handle_signals_keep later (handle_signal signum state) in
    let (originals1, previous1, handlers1, active1) = handle_signal_keeps signum state.0 state.1 in
    (originals ∙ originals1, previous ∙ previous1, handlers ∙ handlers1, active ∙ active1)

-- A new object, given signals that are all different, is entered in the main thread, is sent any
-- signals, and is left: every signal that it asked for and that takes a handler has the handler it had
-- before, the default one if that was not set from Python; every other signal was not touched. The object
-- that was active before is active again, no handler counts as installed, and no timer runs.
pub enter-exit :
    (accepts : ℕ → Bool) (object : ℕ) (signals : List ℕ) (timeout : ℕ) (force_on_repeat : Bool)
    (process : Process) (arriving : List ℕ)
    → distinct signals ≡ true
    → let (self, after) = exit accepts (
        handle_signals arriving
          (enter accepts true (new object signals timeout force_on_repeat, process))) in
      ((k : ℕ)
        → after.handlers k ≡ (
            if accepts k && contains k signals
            then some (or_else (process.handlers k) sig_dfl)
            else process.handlers k))
      × (after.active_shutdown ≡ process.active_shutdown)
      × (self.installed ≡ false)
      × (self.timer ≡ none)
unfolding enter exit install uninstall new
enter-exit accepts object signals timeout force_on_repeat process arriving apart =
    let new_object : GracefulShutdown = new object signals timeout force_on_repeat in
    let entered = enter accepts true (new_object, process) in
    let (originals, previous, handlers, active) = handle_signals_keep arriving entered in
    let (all_found, active_found, own) =
      install_each_lem accepts object process.handlers signals []
        (record process { active_shutdown = some object }) apart (fresh_nil accepts signals)
        (λ k listed. refl) in
    let later : Process = (handle_signals arriving entered).1 in
    (
      λ k.
          ap (λ items. (uninstall_each accepts items later).handlers k) (originals ∙ all_found)
          ∙ handlers-uninstall_each accepts process.handlers signals later k
          ∙ ap (restored accepts process.handlers signals k)
              (ap (λ (hs : ℕ → Option SignalHandler). hs k) handlers ∙ own k)
          ∙ if_twice (accepts k && contains k signals) _ _ (process.handlers k),
      previous,
      refl,
      refl,
    )
