-- ===== src/Prelude/Checked.antt =====
-- Sequencing of calls that may raise and keep no state.
use mathlib.Core.Path.{◌≡◌, refl}
use django_tasks_redis.Prelude.Results.{Result, ok, raise}

infixl 5 ◌>>=◌
abbrev pub ◌>>=◌ {κ ℓ} : {X : Type κ} {Y : Type ℓ} → Result X → (X → Result Y) → Result Y
raise failure >>= next = raise failure
ok value >>= next = next value

-- A call that is followed by another returned a value, if the two together did.
pub first-ok {κ ℓ} :
    {X : Type κ} {Y : Type ℓ} (next : X → Result Y) (first : Result X) {y : Y}
    → (first >>= next) ≡ ok y
    → (x : X) × (first ≡ ok x) × (next x ≡ ok y)
first-ok next (raise failure) together = cc
first-ok next (ok value) together = (value, refl, together)
