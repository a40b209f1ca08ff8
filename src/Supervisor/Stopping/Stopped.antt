-- ===== src/Supervisor/Stopping/Stopped.antt =====
-- A supervisor that stops leaves no process behind (supervisor.py, _stop_workers).
use mathlib.Core.Bool.{false≢true}
use django_tasks_redis.Prelude.{
  ◌⊎◌, ℕ, zero, suc, ◌+◌, ◌≤◌, ◌<◌, ◌≡◌, refl, sym, ap, ◌∙◌, Bool, true, false, ◌||◌, Option, some,
  List, [], ◌∷◌, any, ltb, ◌==◌, ==_iff, arith, Bool-cases, inl, inr,
}
use django_tasks_redis.Prelude.Int.{ℤ, pos}
use django_tasks_redis.Supervisor.ExitCodes.{combine_exit_codes}
use django_tasks_redis.Supervisor.Slots.{Settings, Worker, Supervisor, is_running, reap}
use django_tasks_redis.Supervisor.Stopping.{
  StopSettings, Look, kill_all, kill_workers, past, stop_deadline, stop_from, stop_workers, finish,
}

kill_all_lem :
    (killed : Worker → ℤ) (ws : List Worker) → any is_running (kill_all killed ws).1 ≡ false
unfolding kill_all
kill_all_lem killed [] = refl
kill_all_lem killed (w ∷ ws) = elim (Bool-cases (is_running w)) [
  | inl runs ↦ rw runs (kill_all_lem killed ws)
  | inr idle ↦ rw idle (rw idle (kill_all_lem killed ws))
]

module _ (self : Settings) (stopping : StopSettings) (looks : ℕ → Look) (killed : Worker → ℤ) where
  -- The supervisor after a number of looks, the first of them being `turn`, if it only reaps.
  abbrev pub reaped_from : ℕ → ℕ → Supervisor → Supervisor
  reaped_from turn zero s = s
  reaped_from turn (suc n) s =
      reaped_from (suc turn) n (reap self (looks turn).poll (looks turn).now s)

  -- A second request has come, or the deadline has passed.
  abbrev pub is_over : Option ℕ → ℕ → Bool
  is_over deadline i = ltb 1 (looks i).request_count || past deadline (looks i).checked_at

  abbrev pub combined : Supervisor → ℤ
  combined s = combine_exit_codes self.empty_exit_code stopping.failed_exit_code s.exit_codes

  -- The workers have exited by themselves: nothing was done but reaping, and the command exits with the
  -- combination of their codes.
  abbrev pub ExitsAlone : ℕ → Supervisor → Option (Supervisor × Bool) → Type 0
  ExitsAlone turn s outcome =
      (n : ℕ) × (forced : Bool) × (outcome ≡ some (reaped_from turn n s, forced))
      × (any is_running (reaped_from turn n s).workers ≡ false)
      × (finish self stopping (reaped_from turn n s) forced ≡ combined (reaped_from turn n s))

  -- At some look a second request had come or the deadline had passed while a worker still ran: those that
  -- ran were killed, none runs, and the command exits with 1.
  abbrev pub Kills : ℕ → Option ℕ → Supervisor → Option (Supervisor × Bool) → Type 0
  Kills turn deadline s outcome =
      (n : ℕ) × (forced : Bool) × (is_over deadline (turn + n) ≡ true)
      × (any is_running (reaped_from turn (suc n) s).workers ≡ true)
      × (outcome ≡ some (kill_workers killed (reaped_from turn (suc n) s), forced))
      × (any is_running (kill_workers killed (reaped_from turn (suc n) s)).workers ≡ false)
      × (finish self stopping (kill_workers killed (reaped_from turn (suc n) s)) forced ≡ pos 1)

  stop_from-ends :
      (fuel turn : ℕ) (deadline : Option ℕ) (s : Supervisor) (last : ℕ)
      → is_over deadline last ≡ true
      → turn ≤ last
      → last < turn + fuel
      → ExitsAlone turn s (stop_from self stopping looks killed fuel turn deadline s)
        ⊎ Kills turn deadline s (stop_from self stopping looks killed fuel turn deadline s)
  unfolding stop_from kill_workers finish
  stop_from-ends zero turn deadline s last ends before enough = ground arith
  stop_from-ends (suc fuel) turn deadline s last ends before enough =
      let reaped = reap self (looks turn).poll (looks turn).now s in
      elim (Bool-cases (any is_running reaped.workers)) [
        | inr exited ↦ inl (1, false, rw exited refl, exited, refl)
        | inl busy ↦ elim (Bool-cases (is_over deadline turn)) [
          | inl kill ↦
              let here : turn + 0 ≡ turn = omega arith in
              inr (
                0,
                true,
                ap (is_over deadline) here ∙ kill,
                busy,
                rw (busy, kill) refl,
                kill_all_lem killed reaped.workers,
                refl,
              )
          | inr patient ↦ elim (Bool-cases (turn == last)) [
            | inl here ↦ absurd (
                false≢true (sym patient ∙ ap (is_over deadline) ((==_iff turn last).0 here) ∙ ends))
            | inr later ↦
                elim (stop_from-ends fuel (suc turn) deadline reaped last ends
                  (ground (arith, before, later)) (omega (arith, enough))) [
                    | inl (n, forced, outcome, gone, code) ↦
                        inl (suc n, forced, rw (busy, patient) outcome, gone, code)
                    | inr (n, forced, over, running, outcome, gone, code) ↦
                        let same : turn + suc n ≡ suc turn + n = omega arith in
                        inr (
                          suc n,
                          forced,
                          ap (is_over deadline) same ∙ over,
                          running,
                          rw (busy, patient) outcome,
                          gone,
                          code,
                        )
                  ]
          ]
        ]
      ]

  -- The supervisor stops its workers: if at some look a second request has come or the deadline has
  -- passed, it returns within the looks up to that one, and no process is running when it does. Either
  -- every worker exited by itself, and the command exits with the combination of their codes; or a
  -- worker still ran at a look at which it was over, those that ran were killed, and it exits with 1.
  pub stop_workers-ends :
      (now last : ℕ) (s : Supervisor)
      → is_over (stop_deadline self stopping now) last ≡ true
      → ExitsAlone 0 s (stop_workers self stopping looks killed (suc last) now s)
        ⊎ Kills 0
            (stop_deadline self stopping now)
            s
            (stop_workers self stopping looks killed (suc last) now s)
  unfolding stop_workers finish
  stop_workers-ends now last s ends = elim (Bool-cases (any is_running s.workers)) [
    | inl busy ↦ rw busy (
        stop_from-ends (suc last) 0 (stop_deadline self stopping now) s last ends (omega arith)
          (omega arith))
    | inr exited ↦ inl (0, false, rw exited refl, exited, refl)
  ]
