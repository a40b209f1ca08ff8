-- ===== src/Supervisor/Supervised/Running.antt =====
-- A supervisor that restarts its workers keeps running (supervisor.py, _supervise).
use django_tasks_redis.Prelude.{
  ℕ, zero, suc, ◌≤◌, ◌≡◌, refl, ◌∙◌, true, false, List, [], ◌∷◌, any, all, arith, Bool-cases, inl,
  inr,
}
use django_tasks_redis.Prelude.Int.{ℤ, pos, negsuc}
use django_tasks_redis.Supervisor.Slots.{
  Settings, Worker, Supervisor, count_active, reap, start_due, add_slot,
}
use django_tasks_redis.Supervisor.Slots.Living.{
  Staffed, Turns, reaped, started, added, retired, done, turn, Turns-Staffed, is_live,
}
use django_tasks_redis.Supervisor.Supervised.{
  Tick, Watch, apply_scaling, add_slots, retire_slots, supervise_turn, supervise,
}

then_turns :
    (self : Settings) {s t u : Supervisor} → Turns self s t → Turns self t u → Turns self s u
then_turns self (done s) later = later
then_turns self (turn first rest) later = turn first (then_turns self rest later)

add_slots_turns : (self : Settings) (now n : ℕ) (s : Supervisor) → Turns self s (add_slots now n s)
unfolding add_slots
add_slots_turns self now zero s = done s
add_slots_turns self now (suc n) s =
    turn (added now s) (add_slots_turns self now n (add_slot now s))

retire_slots_turns : (self : Settings) (n : ℕ) (s : Supervisor) → Turns self s (retire_slots n s)
unfolding retire_slots
retire_slots_turns self zero s = done s
retire_slots_turns self (suc n) s = turn (retired s) (retire_slots_turns self n _)

apply_scaling_turns :
    (self : Settings) (now : ℕ) (scale : ℤ) (s : Supervisor)
    → Turns self s (apply_scaling now scale s)
unfolding apply_scaling
apply_scaling_turns self now (pos n) s = add_slots_turns self now n s
apply_scaling_turns self now (negsuc n) s = retire_slots_turns self (suc n) s

-- No operation of the loop asks the supervisor to stop.
add_slots_running :
    (now n : ℕ) (s : Supervisor) → (add_slots now n s).shutting_down ≡ s.shutting_down
unfolding add_slots add_slot
add_slots_running now zero s = refl
add_slots_running now (suc n) s = add_slots_running now n (add_slot now s)

retire_slots_running : (n : ℕ) (s : Supervisor) → (retire_slots n s).shutting_down ≡ s.shutting_down
unfolding retire_slots
retire_slots_running zero s = refl
retire_slots_running (suc n) s = retire_slots_running n _

apply_scaling_running :
    (now : ℕ) (scale : ℤ) (s : Supervisor)
    → (apply_scaling now scale s).shutting_down ≡ s.shutting_down
unfolding apply_scaling
apply_scaling_running now (pos n) s = add_slots_running now n s
apply_scaling_running now (negsuc n) s = retire_slots_running (suc n) s

busy_live : (ws : List Worker) → all is_live ws ≡ true → 1 ≤ count_active ws → any is_live ws ≡ true
busy_live [] live active = ground arith
busy_live (w ∷ ws) live active = ground arith

module _ (self : Settings) (restarting : self.restart ≡ true) where
  supervise_turn-Staffed :
      (tick : Tick) (watch : Watch)
      → watch.supervisor.shutting_down ≡ false
      → Staffed watch.supervisor.workers
      → let after = (supervise_turn self tick watch).supervisor in
        (after.shutting_down ≡ false) × Staffed after.workers
  unfolding supervise_turn
  supervise_turn-Staffed tick watch running staffed =
      let scaled = apply_scaling tick.now tick.pending_scale watch.supervisor in
      let quiet : scaled.shutting_down ≡ false =
        apply_scaling_running tick.now tick.pending_scale watch.supervisor ∙ running in
      let after_reap = reap self tick.poll tick.now scaled in
      let turns =
        then_turns self (apply_scaling_turns self tick.now tick.pending_scale watch.supervisor) (
          turn (reaped tick.poll tick.now scaled quiet)
            (turn (started tick.now tick.child after_reap) (done _))) in
      (unfold reap start_due in quiet, Turns-Staffed self restarting turns staffed)

  -- A supervisor that restarts its workers, with its slots running or due to start and one of them
  -- active, goes on for as long as no shutdown is requested, whatever exits, starts and scaling requests
  -- come: the loop does not return by itself, and at the end the slots are so again.
  pub supervise-Staffed :
      (ticks : List Tick) (watch : Watch)
      → watch.supervisor.shutting_down ≡ false
      → Staffed watch.supervisor.workers
      → let (returned, after) = supervise self ticks watch in
        (returned ≡ false) × Staffed after.supervisor.workers
  unfolding supervise supervise_turn
  supervise-Staffed [] watch running staffed = (refl, staffed)
  supervise-Staffed (tick ∷ ticks) watch running staffed =
      let (quiet, staffed') = supervise_turn-Staffed tick watch running staffed in
      let after = supervise_turn self tick watch in
      let busy = busy_live after.supervisor.workers staffed'.0 staffed'.1 in
      elim (Bool-cases tick.is_set) [
        | inl stop ↦ rw stop (refl, staffed)
        | inr go ↦ rw (go, busy) (supervise-Staffed ticks after quiet staffed')
      ]
