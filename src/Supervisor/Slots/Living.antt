-- ===== src/Supervisor/Slots/Living.antt =====
-- While the supervisor runs and restarts its workers, no slot is stranded (supervisor.py, _supervise).
use django_tasks_redis.Prelude.{
  ℕ, suc, ◌+◌, ◌≤◌, ◌≡◌, refl, Bool, true, false, not, ◌&&◌, ◌||◌, Option, List, [], ◌∷◌, ◌++◌, ltb,
  leb, all, is_some, arith, Bool-cases, Option-cases, inl, inr, if◌then◌else◌,
}
use django_tasks_redis.Prelude.Int.{ℤ}
use django_tasks_redis.Supervisor.Slots.{
  Settings, Worker, Supervisor, is_running, is_active, count_active, reap_exited, reap_one,
  reap_all, reap, add_slot, retire_last, retire_newest, start_due_all, start_due, spawn, is_due,
}

-- A process runs, or a start is due at some time.
abbrev pub is_live : Worker → Bool
is_live worker = is_running worker || is_some worker.restart_at

all-++ :
    (ws vs : List Worker)
    → all is_live ws ≡ true
    → all is_live vs ≡ true
    → all is_live (ws ++ vs) ≡ true
all-++ [] vs h h' = h'
all-++ (w ∷ ws) vs h h' = ground (arith, all-++ ws vs)

count_active-++ :
    (ws vs : List Worker) → count_active (ws ++ vs) ≡ count_active ws + count_active vs
count_active-++ [] vs = omega arith
count_active-++ (w ∷ ws) vs = omega (arith, count_active-++ ws vs)

-- One retirement takes one active slot away, and only if another stays.
count_active-retire_last :
    (ws : List Worker) → 1 ≤ count_active ws → suc (count_active (retire_last ws)) ≡ count_active ws
unfolding retire_last
count_active-retire_last [] some_active = ground arith
count_active-retire_last (w ∷ ws) some_active = elim (Bool-cases (ltb 0 (count_active ws))) [
  | inl more ↦ rw more (ground (arith, count_active-retire_last ws))
  | inr last ↦ elim (Bool-cases w.retiring) [
    | inl leaving ↦ ground arith
    | inr stays ↦ elim (Bool-cases (is_running w)) [
      | inl runs ↦ rw (last, stays, runs) (omega arith)
      | inr idle ↦ rw (last, stays, idle) (omega arith)
    ]
  ]
]

all-retire_last : (ws : List Worker) → all is_live ws ≡ true → all is_live (retire_last ws) ≡ true
unfolding retire_last
all-retire_last [] h = refl
all-retire_last (w ∷ ws) h = elim (Bool-cases (ltb 0 (count_active ws))) [
  | inl more ↦ rw more (ground (arith, all-retire_last ws))
  | inr last ↦ ground arith
]

-- The slots that the supervisor is left with are all live, and one of them is active.
abbrev pub Staffed : List Worker → Type 0
Staffed ws = (all is_live ws ≡ true) × (1 ≤ count_active ws)

retire_newest-Staffed : (ws : List Worker) → Staffed ws → Staffed (retire_newest ws)
unfolding retire_newest
retire_newest-Staffed ws (live, active) = elim (Bool-cases (leb (count_active ws) 1)) [
  | inl few ↦ rw few (live, active)
  | inr many ↦ rw many (all-retire_last ws live, ground (arith, count_active-retire_last ws active))
]

add_slot-Staffed : (now : ℕ) (s : Supervisor) → Staffed s.workers → Staffed (add_slot now s).workers
unfolding add_slot
add_slot-Staffed now s (live, active) =
    (all-++ s.workers _ live refl, omega (arith, active, count_active-++ s.workers _))

start_due_all_lem :
    (now : ℕ) (child : ℕ → ℕ) (ws : List Worker)
    → all is_live ws ≡ true
    → let (after, _, _) = start_due_all now child ws in
      (all is_live after ≡ true) × (count_active after ≡ count_active ws)
unfolding start_due_all spawn
start_due_all_lem now child [] live = (refl, refl)
start_due_all_lem now child (w ∷ ws) live =
    let (rest_live, rest_active) = start_due_all_lem now child ws (ground arith) in
    elim (Bool-cases (not (is_running w) && is_due w.restart_at now)) [
      | inl due ↦ rw due (rest_live, omega (arith, rest_active))
      | inr other ↦ rw other (ground arith, omega (arith, rest_active))
    ]

module _ (self : Settings) (restarting : self.restart ≡ true) where
  reap_one_lem :
      (poll : Worker → Option ℤ) (now : ℕ) (w : Worker)
      → is_live w ≡ true
      → let (_, kept) = reap_one self false poll now w in
        (all is_live kept ≡ true) × (count_active kept ≡ (if is_active w then 1 else 0))
  unfolding reap_one reap_exited
  reap_one_lem poll now w live = elim (Bool-cases (is_running w)) [
    | inl runs ↦ elim (Option-cases (poll w)) [
      | inl busy ↦ rw (runs, busy) (ground arith, omega arith)
      | inr (code, ended) ↦ elim (Bool-cases w.retiring) [
        | inl leaving ↦ rw (runs, ended, leaving) (refl, refl)
        | inr stays ↦ rw (runs, ended, stays, restarting) (refl, refl)
      ]
    ]
    | inr idle ↦ rw idle (ground arith, omega arith)
  ]

  reap_all_lem :
      (poll : Worker → Option ℤ) (now : ℕ) (ws : List Worker)
      → all is_live ws ≡ true
      → let (_, kept) = reap_all self false poll now ws in
        (all is_live kept ≡ true) × (count_active kept ≡ count_active ws)
  unfolding reap_all
  reap_all_lem poll now [] live = (refl, refl)
  reap_all_lem poll now (w ∷ ws) live =
      let (first_live, first_active) = reap_one_lem poll now w (ground arith) in
      let (rest_live, rest_active) = reap_all_lem poll now ws (ground arith) in
      let first = (reap_one self false poll now w).1 in
      let rest = (reap_all self false poll now ws).1 in
      (
        all-++ first rest first_live rest_live,
        omega (arith, first_active, rest_active, count_active-++ first rest),
      )

-- One turn of the supervisor at a time, in any order, until it is asked to stop.
pub data Turn (self : Settings) : Supervisor → Supervisor → Type 0 where
  reaped :
      (poll : Worker → Option ℤ) (now : ℕ) (s : Supervisor)
      → s.shutting_down ≡ false
      → Turn self s (reap self poll now s)
  started : (now : ℕ) (child : ℕ → ℕ) (s : Supervisor) → Turn self s (start_due now child s)
  added : (now : ℕ) (s : Supervisor) → Turn self s (add_slot now s)
  retired : (s : Supervisor) → Turn self s (record s { workers = retire_newest s.workers })

pub data Turns (self : Settings) : Supervisor → Supervisor → Type 0 where
  done : (s : Supervisor) → Turns self s s
  turn : {s t u : Supervisor} → Turn self s t → Turns self t u → Turns self s u

module _ (self : Settings) (restarting : self.restart ≡ true) where
  turn-Staffed : {s t : Supervisor} → Turn self s t → Staffed s.workers → Staffed t.workers
  unfolding reap start_due
  turn-Staffed (reaped poll now s running) (live, active) =
      let (after_live, after_active) = reap_all_lem self restarting poll now s.workers live in
      rw running (after_live, omega (arith, active, after_active))
  turn-Staffed (started now child s) (live, active) =
      let (after_live, after_active) = start_due_all_lem now child s.workers live in
      (after_live, omega (arith, active, after_active))
  turn-Staffed (added now s) staffed = add_slot-Staffed now s staffed
  turn-Staffed (retired s) staffed = retire_newest-Staffed s.workers staffed

  -- A supervisor that restarts its workers and is not stopping, once its slots all run or are due to
  -- start and one is active, stays so, whatever exits, starts and scaling requests come, in whatever
  -- order.
  pub Turns-Staffed : {s t : Supervisor} → Turns self s t → Staffed s.workers → Staffed t.workers
  Turns-Staffed (done s) staffed = staffed
  Turns-Staffed (turn first rest) staffed = Turns-Staffed rest (turn-Staffed first staffed)
