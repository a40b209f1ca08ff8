-- ===== src/Supervisor/ExitCodes.antt =====
-- The exit code that the supervisor reports for its workers (supervisor.py, combine_exit_codes).
use django_tasks_redis.Prelude.{
  ◌+◌, ◌≡◌, refl, Bool, true, false, not, ◌&&◌, ◌||◌, List, [], ◌∷◌, ◌++◌, any, all, arith,
  if◌then◌else◌, ◌==◌,
}
use django_tasks_redis.Prelude.Int.{ℤ, pos, negsuc, eqb_ℤ}

-- `code in normal`
abbrev pub is_normal : ℤ → ℤ → ℤ → Bool
is_normal empty_exit_code failed_exit_code code =
    eqb_ℤ code (pos 0) || (eqb_ℤ code empty_exit_code || eqb_ℤ code failed_exit_code)

-- `code if code > 0 else 128 - code`
abbrev pub shell_code : ℤ → ℤ
shell_code (pos n) = pos (if n == 0 then 128 else n)
shell_code (negsuc n) = pos (128 + n + 1)

module _ (empty_exit_code failed_exit_code : ℤ) where
  -- What is reported when every code is normal.
  settle : List ℤ → ℤ
  settle codes =
      if not (eqb_ℤ failed_exit_code (pos 0)) && any (eqb_ℤ failed_exit_code) codes
      then failed_exit_code
      else if not (eqb_ℤ empty_exit_code (pos 0)) && all (λ c. eqb_ℤ c empty_exit_code) codes
      then empty_exit_code
      else pos 0

  -- `for code in codes`, and what follows the loop
  scan : List ℤ → List ℤ → ℤ
  unfolding settle
  scan codes [] = settle codes
  scan codes (code ∷ rest) =
      let later = scan codes rest in
      if is_normal empty_exit_code failed_exit_code code then later else shell_code code

  pub combine_exit_codes : List ℤ → ℤ
  unfolding scan
  combine_exit_codes [] = pos 0
  combine_exit_codes (c ∷ cs) = scan (c ∷ cs) (c ∷ cs)

  scan_crash :
      (codes before after : List ℤ) (code : ℤ)
      → all (is_normal empty_exit_code failed_exit_code) before ≡ true
      → is_normal empty_exit_code failed_exit_code code ≡ false
      → scan codes (before ++ code ∷ after) ≡ shell_code code
  unfolding scan
  scan_crash codes [] after code ok bad = rw bad
  scan_crash codes (b ∷ before) after code ok bad =
      ground (arith, scan_crash codes before after code)

  -- The first code that is neither 0 nor the code of an idle run or of a failed task is passed on, as
  -- a shell would tell it.
  pub combine_exit_codes_crash :
      (before after : List ℤ) (code : ℤ)
      → all (is_normal empty_exit_code failed_exit_code) before ≡ true
      → is_normal empty_exit_code failed_exit_code code ≡ false
      → combine_exit_codes (before ++ code ∷ after) ≡ shell_code code
  unfolding combine_exit_codes
  combine_exit_codes_crash [] after code ok bad = scan_crash (code ∷ after) [] after code ok bad
  combine_exit_codes_crash (b ∷ before) after code ok bad =
      scan_crash (b ∷ (before ++ code ∷ after)) (b ∷ before) after code ok bad

  scan_normal :
      (codes rest : List ℤ)
      → all (is_normal empty_exit_code failed_exit_code) rest ≡ true
      → scan codes rest ≡ settle codes
  unfolding scan
  scan_normal codes [] ok = refl
  scan_normal codes (c ∷ rest) ok = ground (arith, scan_normal codes rest)

  -- If every code is 0 or the code of an idle run or of a failed task: a failure of any worker wins,
  -- an idle run needs every worker idle, and 0 is the rest.
  pub combine_exit_codes_normal :
      (c : ℤ) (cs : List ℤ)
      → all (is_normal empty_exit_code failed_exit_code) (c ∷ cs) ≡ true
      → combine_exit_codes (c ∷ cs) ≡ (
          if not (eqb_ℤ failed_exit_code (pos 0)) && any (eqb_ℤ failed_exit_code) (c ∷ cs)
          then failed_exit_code
          else if not (eqb_ℤ empty_exit_code (pos 0))
              && all (λ code. eqb_ℤ code empty_exit_code) (c ∷ cs)
          then empty_exit_code
          else pos 0)
  unfolding combine_exit_codes settle
  combine_exit_codes_normal c cs ok = scan_normal (c ∷ cs) (c ∷ cs) ok
