-- ===== src/Prelude/Results.antt =====
-- A call that may raise, and the store that it leaves behind either way.
use Prim.Native.Nat.{ℕ}
use mathlib.Core.List.{List}
use mathlib.Core.Path.{◌≡◌, refl}

-- The exceptions the modelled code raises or lets through.
pub data Error : Type 0 where
  -- django.tasks.exceptions.TaskResultDoesNotExist, with the task id
  does_not_exist : List ℕ → Error
  -- ValueError
  value_error : Error
  -- KeyError: a field that the hash does not carry
  key_error : Error
  -- django.core.exceptions.ImproperlyConfigured
  improperly_configured : Error
  -- django.core.management.base.CommandError
  command_error : Error
  -- an exception from code outside the package: a task function, an import, a signal receiver
  other_error : List ℕ → Error

pub data Result {ℓ} (A : Type ℓ) : Type ℓ where
  ok : A → Result A
  raise : Error → Result A

abbrev pub Exec {ℓ} : Type ℓ → Type ℓ → Type ℓ
Exec S A = S → Result A × S

infixl 5 ◌>>=◌ ◌>>◌
abbrev pub continue {ℓ} : {S A B : Type ℓ} → Result A → (A → Exec S B) → Exec S B
continue (ok a) f s = f a s
continue (raise e) f s = (raise e, s)

abbrev pub ◌>>=◌ {ℓ} : {S A B : Type ℓ} → Exec S A → (A → Exec S B) → Exec S B
◌>>=◌ m f s = let (r, s') = m s in continue r f s'

abbrev pub ◌>>◌ {ℓ} : {S A B : Type ℓ} → Exec S A → Exec S B → Exec S B
m >> n = m >>= λ _. n

abbrev pub pure {ℓ} : {S A : Type ℓ} → A → Exec S A
pure a s = (ok a, s)

abbrev pub fail {ℓ} : {S A : Type ℓ} → Error → Exec S A
fail e s = (raise e, s)

-- Inversion of a sequence that ends well.
continue-eq-ok {ℓ} :
    {S A B : Type ℓ} (x : Result A) (f : A → Exec S B) (s : S) {b : B}
    → (continue x f s).0 ≡ ok b
    → (a : A) × (x ≡ ok a) × ((f a s).0 ≡ ok b)
continue-eq-ok (ok a) f s h = (a, refl, h)
continue-eq-ok (raise x) f s h = cc

pub bind-eq-ok {ℓ} :
    {S A B : Type ℓ} (m : Exec S A) (f : A → Exec S B) (s : S) {b : B}
    → ((m >>= f) s).0 ≡ ok b
    → (a : A) × ((m s).0 ≡ ok a) × ((f a (m s).1).0 ≡ ok b)
bind-eq-ok m f s h = continue-eq-ok (m s).0 f (m s).1 h

pub ok_inj {ℓ} : {A : Type ℓ} (a b : A) → ok a ≡ ok b → a ≡ b
ok_inj a b e = cc
