-- ===== src/Shutdown/Requested.antt =====
-- What a number of signals leads to (shutdown.py, set and _handle_signal).
use django_tasks_redis.Prelude.{
  ℕ, ◌+◌, ◌≡◌, refl, ap, ◌∙◌, Bool, true, false, ◌&&◌, Option, none, some, List, [], ◌∷◌, length,
  ◌==◌, ltb, arith, if◌then◌else◌, Bool-cases, inl, inr,
}
use django_tasks_redis.Prelude.Int.{ℤ}
use django_tasks_redis.Shutdown.{
  GracefulShutdown, Process, new, set, handle_signal, handle_signals, forced_exit_code, force_exit,
  forced, nonempty,
}

forced-forced : (o : Option ℤ) → forced (forced o) ≡ forced o
forced-forced none = refl
forced-forced (some code) = refl

-- A signal to an object that has been asked before.
handle_signal_again :
    (signum : ℕ) (self : GracefulShutdown) (process : Process)
    → self.event ≡ true
    → ltb 0 self.request_count ≡ true
    → handle_signal signum (self, process) ≡ (
      record self { request_count = self.request_count + 1 },
      if self.force_on_repeat then force_exit process else process,
    )
unfolding handle_signal set
handle_signal_again signum self process asked counted =
    let repeated : ((self.request_count + 1) == 1) ≡ false = ground (arith, counted) in
    rw (asked, repeated)

exits :
    (later : List ℕ) (force_on_repeat : Bool) (process : Process)
    → let process1 = if force_on_repeat then force_exit process else process in
      (if nonempty later && force_on_repeat then forced process1.exited else process1.exited)
      ≡ (if force_on_repeat then forced process.exited else process.exited)
exits [] true process = refl
exits (k ∷ later) true process = forced-forced process.exited
exits [] false process = refl
exits (k ∷ later) false process = refl

-- What later signals do to an object that has been asked at least once.
handle_signals_again :
    (later : List ℕ) (self : GracefulShutdown) (process : Process)
    → self.event ≡ true
    → ltb 0 self.request_count ≡ true
    → let (self', process') = handle_signals later (self, process) in
      (self'.event ≡ true)
      × (self'.request_count ≡ self.request_count + length later)
      × (self'.signum ≡ self.signum)
      × (self'.timer ≡ self.timer)
      × (process'.exited ≡ (
          if nonempty later && self.force_on_repeat then forced process.exited else process.exited))
unfolding handle_signals
handle_signals_again [] self process asked counted = (asked, omega arith, refl, refl, refl)
handle_signals_again (signum ∷ later) self process asked counted =
    let self1 : GracefulShutdown = record self { request_count = self.request_count + 1 } in
    let process1 = if self.force_on_repeat then force_exit process else process in
    let (event, count, first, timer, code) =
      handle_signals_again later self1 process1 asked (ground (arith, counted)) in
    rw (handle_signals, handle_signal_again signum self process asked counted)
      (event, omega (arith, count), first, timer, code ∙ exits later self.force_on_repeat process)

handle_signal-new :
    (object : ℕ) (signals : List ℕ) (timeout : ℕ) (force_on_repeat : Bool) (process : Process)
    (signum : ℕ)
    → let (self, after) =
        handle_signal signum (new object signals timeout force_on_repeat, process) in
      (self.event ≡ true)
      × (self.request_count ≡ 1)
      × (self.signum ≡ some signum)
      × (self.timer ≡ (if ltb 0 timeout then some timeout else none))
      × (self.force_on_repeat ≡ force_on_repeat)
      × (after ≡ process)
unfolding handle_signal set new
handle_signal-new object signals timeout force_on_repeat process signum =
    elim (Bool-cases (ltb 0 timeout)) [
      | inl timed ↦ rw timed (refl, refl, refl, refl, refl, refl)
      | inr untimed ↦ rw untimed (refl, refl, refl, refl, refl, refl)
    ]

-- After one or more signals to an object of a process that runs, the shutdown is requested, every signal
-- is counted, the first one is what asked for it, and the timer runs if a timeout is set. The process
-- is ended at once, with the code for that, exactly if a second signal came and repeats are not waited
-- for.
pub handle_signals-new :
    (object : ℕ) (signals : List ℕ) (timeout : ℕ) (force_on_repeat : Bool) (process : Process)
    (signum : ℕ) (later : List ℕ)
    → process.exited ≡ none
    → let (self, after) =
        handle_signals (signum ∷ later) (new object signals timeout force_on_repeat, process) in
      (self.event ≡ true)
      × (self.request_count ≡ 1 + length later)
      × (self.signum ≡ some signum)
      × (self.timer ≡ (if ltb 0 timeout then some timeout else none))
      × (after.exited ≡ (if nonempty later && force_on_repeat then some forced_exit_code else none))
unfolding handle_signals
handle_signals-new object signals timeout force_on_repeat process signum later running =
    let self : GracefulShutdown = new object signals timeout force_on_repeat in
    let (asked, once, first, timed, forcing, untouched) =
      handle_signal-new object signals timeout force_on_repeat process signum in
    let self1 : GracefulShutdown = (handle_signal signum (self, process)).0 in
    let (event, count, kept, timer, code) =
      handle_signals_again later self1 (handle_signal signum (self, process)).1 asked
        (rw once (ground arith)) in
    (
      event,
      count ∙ ap (λ n. n + length later) once,
      kept ∙ first,
      timer ∙ timed,
      code ∙ rw (forcing, untouched, running) refl,
    )
