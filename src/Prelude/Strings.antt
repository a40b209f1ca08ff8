-- ===== src/Prelude/Strings.antt =====
-- Text as the list of its code points, with its equality.
use Prim.Native.Char.{code}
use Prim.Native.Nat.{ℕ}
use Prim.Native.String.{String}
use mathlib.Core.Path.{◌≡◌, refl, sym, ap, ◌∙◌}
use mathlib.Core.Logic.{◌≢◌}
use mathlib.Core.Bool.{Bool, true, false, ◌&&◌}
use mathlib.Core.List.{List, [], ◌∷◌, ◌++◌, append_cancel_right}
use native.Mathlib.Omega.{arith}
use django_tasks_redis.Prelude.Tests.{◌==◌, ==_refl}

abbrev pub Text : Type 0
Text = List ℕ

abbrev pub codes : String → Text
codes String.[] = []
codes (String.◌∷◌ c s) = code c ∷ codes s

unfoldable pub text_eq : Text → Text → Bool
text_eq [] [] = true
text_eq (a ∷ s) (b ∷ t) = a == b && text_eq s t
text_eq _ _ = false

pub text_eq_refl : (s : Text) → text_eq s s ≡ true
unfolding text_eq
text_eq_refl [] = refl
text_eq_refl (a ∷ s) = ground (arith, text_eq_refl s)

pub text_eq_sound : (s t : Text) → text_eq s t ≡ true → s ≡ t
unfolding text_eq
text_eq_sound [] [] h = refl
text_eq_sound [] (b ∷ t) h = ground arith
text_eq_sound (a ∷ s) [] h = ground arith
text_eq_sound (a ∷ s) (b ∷ t) h = ground (arith, text_eq_sound s t)

pub text_eq_ne : (s t : Text) → s ≢ t → text_eq s t ≡ false
text_eq_ne s t h = go (text_eq s t) (text_eq_sound s t)
  where
    go : (b : Bool) → (b ≡ true → s ≡ t) → b ≡ false
    go true k = absurd (h (k refl))
    go false k = refl

-- The last code point, 0 for the empty text.
abbrev pub last : Text → ℕ
last [] = 0
last (a ∷ []) = a
last (a ∷ b ∷ s) = last (b ∷ s)

pub last-append : (s : Text) (b : ℕ) (t : Text) → last (s ++ b ∷ t) ≡ last (b ∷ t)
last-append [] b t = refl
last-append (a ∷ []) b t = refl
last-append (a ∷ c ∷ s) b t = last-append (c ∷ s) b t

-- A text and itself behind another: equality of the rest.
pub text_eq-append_left : (p s t : Text) → text_eq (p ++ s) (p ++ t) ≡ text_eq s t
unfolding text_eq
text_eq-append_left [] s t = refl
text_eq-append_left (a ∷ p) s t = ground (arith, ==_refl a, text_eq-append_left p s t)

pub text_eq_iff_eq :
    (s t u v : Text) → (s ≡ t → u ≡ v) → (u ≡ v → s ≡ t) → text_eq s t ≡ text_eq u v
text_eq_iff_eq s t u v f g = go (text_eq s t) (text_eq u v) refl refl
  where
    go : (a b : Bool) → text_eq s t ≡ a → text_eq u v ≡ b → a ≡ b
    go true true e e' = refl
    go false false e e' = refl
    go true false e e' =
        sym (text_eq_refl v) ∙ ap (λ w. text_eq w v) (sym (f (text_eq_sound s t e))) ∙ e'
    go false true e e' = sym e ∙ ap (λ w. text_eq w t) (g (text_eq_sound u v e')) ∙ text_eq_refl t

pub text_eq-append_right : (s t q : Text) → text_eq (s ++ q) (t ++ q) ≡ text_eq s t
text_eq-append_right s t q =
    text_eq_iff_eq (s ++ q) (t ++ q) s t (append_cancel_right s t q) (ap (λ w. w ++ q))
