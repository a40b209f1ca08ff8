-- ===== src/Supervisor/Slots/Backoff.antt =====
-- The back-off of a worker that fails to start (supervisor.py, _restart_delay).
use django_tasks_redis.Prelude.{
  ℕ, suc, ◌+◌, ◌*◌, ◌^◌, ◌≡◌, refl, ap, ◌∙◌, min, Bool, true, not, ◌&&◌, ◌||◌, List, [], ◌∷◌, leb,
  ltb, all, length, arith,
}
use django_tasks_redis.Prelude.Int.{ℤ, pos, eqb_ℤ}
use django_tasks_redis.Supervisor.Slots.{Settings, restart_delay}

-- Exits in a row, each a code and how long the process ran, and the failures and the delay after them.
pub exits : Settings → ℕ × ℕ → List (ℤ × ℕ) → ℕ × ℕ
exits self now [] = now
exits self (failures, delay) ((code, uptime) ∷ rest) =
    exits self (restart_delay self failures code uptime) rest

abbrev pub is_quick_failure : Settings → ℤ × ℕ → Bool
is_quick_failure self (code, uptime) = not (eqb_ℤ code (pos 0)) && ltb uptime self.stable_after

abbrev pub backoff : Settings → ℕ → ℕ
backoff self n = min (self.backoff_start * 2 ^ n) self.backoff_max

restart_delay_quick :
    (self : Settings) (failures : ℕ) (code : ℤ) (uptime : ℕ)
    → is_quick_failure self (code, uptime) ≡ true
    → restart_delay self failures code uptime ≡ (suc failures, backoff self failures)
unfolding restart_delay
restart_delay_quick self failures code uptime quick = ground arith

suc_add : (n k : ℕ) → suc n + k ≡ n + suc k
suc_add n k = omega arith

zero_add : (k : ℕ) → 0 + k ≡ k
zero_add k = omega arith

add-zero : (n : ℕ) → n + 0 ≡ n
add-zero n = omega arith

exits_quick :
    (self : Settings) (n d : ℕ) (first : ℤ × ℕ) (rest : List (ℤ × ℕ))
    → all (is_quick_failure self) (first ∷ rest) ≡ true
    → exits self (n, d) (first ∷ rest) ≡ (suc (n + length rest), backoff self (n + length rest))
unfolding exits
exits_quick self n d (code, uptime) [] quick =
    restart_delay_quick self n code uptime (ground arith) ∙ rw (add-zero n) refl
exits_quick self n d (code, uptime) (next ∷ rest) quick =
    ap (λ now. exits self now (next ∷ rest)) (restart_delay_quick self n code uptime (ground arith))
    ∙ (exits_quick self (suc n) (backoff self n) next rest (ground arith)
        ∙ ap (λ k. (suc k, backoff self k)) (suc_add n (length rest)))

-- After exits that all failed to start, the delay is the first delay, doubled for each exit past the
-- first, and never more than the maximum.
pub restart_delay_doubles :
    (self : Settings) (first : ℤ × ℕ) (rest : List (ℤ × ℕ))
    → all (is_quick_failure self) (first ∷ rest) ≡ true
    → exits self (0, 0) (first ∷ rest) ≡ (suc (length rest), backoff self (length rest))
restart_delay_doubles self first rest quick =
    exits_quick self 0 0 first rest quick
    ∙ ap (λ k. (suc k, backoff self k)) (zero_add (length rest))

-- A clean exit, or a process that stayed up, starts the count over: no delay.
pub restart_delay_clears :
    (self : Settings) (failures : ℕ) (code : ℤ) (uptime : ℕ)
    → eqb_ℤ code (pos 0) || leb self.stable_after uptime ≡ true
    → restart_delay self failures code uptime ≡ (0, 0)
unfolding restart_delay
restart_delay_clears self failures code uptime h = rw h
