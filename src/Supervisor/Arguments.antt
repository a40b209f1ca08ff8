-- ===== src/Supervisor/Arguments.antt =====
-- The command line of one worker: `strip_option` (supervisor.py) takes `--workers` out.
use django_tasks_redis.Prelude.{
  ◌≡◌, refl, Bool, true, false, not, ◌&&◌, Bool-cases, inl, inr, List, [], ◌∷◌, Text, codes,
  text_eq, leb, ◌==◌, length, arith, all, ◌++◌, if◌then◌else◌,
}

-- s.startswith(p)
starts_with : Text → Text → Bool
starts_with s [] = true
starts_with [] (p ∷ ps) = false
starts_with (c ∷ s) (p ∷ ps) = c == p && starts_with s ps

-- The key of `arg.partition("=")`, and whether there was a "=".
key_of : Text → Text
key_of [] = []
key_of (c ∷ s) = let rest = key_of s in if c == b'=' then [] else c ∷ rest

has_value : Text → Bool
has_value [] = false
has_value (c ∷ s) = let rest = has_value s in if c == b'=' then true else rest

-- The option, or an abbreviation of it that argparse accepts.
unfoldable pub matches : Text → Text → Bool
unfolding starts_with key_of
matches name arg =
    leb 4 (length (key_of arg))
    && (starts_with (key_of arg) (codes "--") && starts_with name (key_of arg))

abbrev pub separator : Text
separator = codes "--"

-- The loop, with `skip_next` as its state.
strip_from : Text → Bool → List Text → List Text
strip_from name skip_next [] = []
strip_from name true (arg ∷ args) = strip_from name false args
strip_from name false (arg ∷ args) =
    let without = strip_from name (not (has_value arg)) args in
    let rest = strip_from name false args in
    if text_eq arg separator then arg ∷ args else if matches name arg then without else arg ∷ rest

pub strip_option : List Text → Text → List Text
unfolding strip_from
strip_option args name = strip_from name false args

-- No argument before a `--` is the option.
abbrev pub is_stripped : Text → List Text → Bool
is_stripped name [] = true
is_stripped name (arg ∷ args) =
    if text_eq arg separator then true else not (matches name arg) && is_stripped name args

strip_from-is_stripped :
    (name : Text) (skip : Bool) (args : List Text)
    → is_stripped name (strip_from name skip args) ≡ true
unfolding strip_from
strip_from-is_stripped name skip [] = refl
strip_from-is_stripped name true (arg ∷ args) = strip_from-is_stripped name false args
strip_from-is_stripped name false (arg ∷ args) = elim (Bool-cases (text_eq arg separator)) [
  | inl e ↦ rw (e, e)
  | inr e ↦ elim (Bool-cases (matches name arg)) [
    | inl m ↦ rw (e, m) (strip_from-is_stripped name (not (has_value arg)) args)
    | inr m ↦ rw (e, m, e, m) (strip_from-is_stripped name false args)
  ]
]

-- After strip_option no argument before a `--` is the option, in any spelling that it accepts.
pub strip_option-is_stripped :
    (args : List Text) (name : Text) → is_stripped name (strip_option args name) ≡ true
unfolding strip_option
strip_option-is_stripped args name = strip_from-is_stripped name false args

strip_from_of_is_stripped :
    (name : Text) (args : List Text)
    → is_stripped name args ≡ true
    → strip_from name false args ≡ args
unfolding strip_from
strip_from_of_is_stripped name [] h = refl
strip_from_of_is_stripped name (arg ∷ args) h = ground (arith, strip_from_of_is_stripped name args)

-- A command line without the option reaches the workers as it is, so stripping twice is stripping once.
pub strip_option_idem :
    (args : List Text) (name : Text)
    → strip_option (strip_option args name) name ≡ strip_option args name
unfolding strip_option
strip_option_idem args name =
    strip_from_of_is_stripped name (strip_from name false args)
      (strip_from-is_stripped name false args)

abbrev pub workers_option : Text
workers_option = codes "--workers"

-- An argument that is neither the option nor the `--` that ends the options.
abbrev pub is_plain : Text → Bool
is_plain arg = not (text_eq arg separator) && not (matches workers_option arg)

strip_from-plain :
    (before args : List Text)
    → all is_plain before ≡ true
    → strip_from workers_option false (before ++ args)
      ≡ before ++ strip_from workers_option false args
unfolding strip_from
strip_from-plain [] args plain = refl
strip_from-plain (arg ∷ before) args plain = ground (arith, strip_from-plain before args)

-- Both spellings of `--workers` go, with the value, and what stands before them stays, if none of it
-- is the option or `--`.
pub strip_option_removes :
    (before after : List Text) (value : Text)
    → all is_plain before ≡ true
    → (strip_option (before ++ workers_option ∷ value ∷ after) workers_option
        ≡ before ++ strip_option after workers_option)
      × (strip_option (before ++ (codes "--workers=" ++ value) ∷ after) workers_option
          ≡ before ++ strip_option after workers_option)
unfolding strip_option strip_from matches has_value text_eq
strip_option_removes before after value plain = (
  strip_from-plain before (workers_option ∷ value ∷ after) plain,
  strip_from-plain before ((codes "--workers=" ++ value) ∷ after) plain,
)
