-- ===== src/Auth/Signed.antt =====
-- What a signature covers, and which signed requests are let in (auth.py, HMACAuth).
use mathlib.Core.Bool.{false≢true}
use django_tasks_redis.Prelude.{
  ℕ, ◌≡◌, ◌≢◌, ◌⊎◌, refl, sym, ap, ◌∙◌, Bool, true, false, not, Option, none, some, [], ◌∷◌, ◌++◌,
  Text, codes, Result, ok, Bool-cases, inl, inr, all, or_else, ◌==◌, ==_iff, arith,
}
use django_tasks_redis.Prelude.Checked.{first-ok}
use django_tasks_redis.Prelude.Int.{ℤ}
use django_tasks_redis.Auth.{
  Request, Response, AuthOptions, AuthSettings, Platform, resolve_secret, hmac_auth, hmac_header,
  hmac_timestamp, check_age, check_sent, check_signature, build_signature, payload, is_expired,
  given, get_option, reject,
}
use django_tasks_redis.Auth.Accepted.{
  CompareDigest, compare_digest-true, compared-ok, given-eq-some,
}

-- A line holds no line break.
abbrev pub is_line : Text → Bool
is_line = all (λ c. not (c == b'\n'))

line_break-ne-head : (c : ℕ) (line : Text) → is_line (c ∷ line) ≡ true → b'\n' ≢ c
line_break-ne-head c line l e = false≢true (sym (rw (← e) refl) ∙ l)

lines_inj :
    (line other rest remaining : Text)
    → is_line line ≡ true
    → is_line other ≡ true
    → line ++ b'\n' ∷ rest ≡ other ++ b'\n' ∷ remaining
    → (line ≡ other) × (rest ≡ remaining)
lines_inj [] [] rest remaining l o e = (refl, cc)
lines_inj [] (d ∷ other) rest remaining l o e = absurd (line_break-ne-head d other o cc)
lines_inj (c ∷ line) [] rest remaining l o e = absurd (line_break-ne-head c line l cc)
lines_inj (c ∷ line) (d ∷ other) rest remaining l o e =
    let first : c ≡ d = cc in
    let (tails, rests) =
      lines_inj line other rest remaining (ground (arith, l)) (ground (arith, o)) cc in
    (rw (first, tails) refl, rests)

module _ (python : Platform) (options : AuthOptions) where
  -- Where encoding is one to one: of requests whose timestamp, method and path are lines, two that are
  -- signed as the same bytes have the same timestamp, the same method but for its case, the same path
  -- with its query, and the same body.
  pub payload_inj :
      ((s t : Text) → python.encode s ≡ python.encode t → s ≡ t)
      → (timestamp method path body timestamp' method' path' body' : Text)
      → is_line (python.encode timestamp) ≡ true
      → is_line (python.encode timestamp') ≡ true
      → is_line (python.encode (python.upper method)) ≡ true
      → is_line (python.encode (python.upper method')) ≡ true
      → is_line (python.encode path) ≡ true
      → is_line (python.encode path') ≡ true
      → payload python timestamp method path body ≡ payload python timestamp' method' path' body'
      → (timestamp ≡ timestamp')
        × (python.upper method ≡ python.upper method')
        × (path ≡ path')
        × (body ≡ body')
  unfolding payload
  payload_inj encode_inj t m p b t' m' p' b' lt lt' lm lm' lp lp' same =
      let (timestamps, same1) = lines_inj (python.encode t) (python.encode t') _ _ lt lt' same in
      let (methods, same2) =
        lines_inj (python.encode (python.upper m)) (python.encode (python.upper m')) _ _ lm lm'
          same1 in
      let (paths, bodies) = lines_inj (python.encode p) (python.encode p') _ _ lp lp' same2 in
      (encode_inj t t' timestamps, encode_inj _ _ methods, encode_inj p p' paths, bodies)

module _ (python : Platform) (documented : CompareDigest python.compare_digest)
    (outside : AuthSettings) (options : AuthOptions) (now : ℕ) (request : Request) where
  abbrev algorithm : Text
  algorithm = get_option options (codes "ALGORITHM") (codes "sha256")

  abbrev signature_header : Text
  signature_header = get_option options (codes "HEADER") (codes "X-Task-Signature")

  abbrev timestamp_header : Text
  timestamp_header = get_option options (codes "TIMESTAMP_HEADER") (codes "X-Task-Timestamp")

  abbrev max_age : ℕ
  max_age = or_else options.max_age 300

  -- The age of a signature was not checked, or the timestamp is a number of seconds near `now`.
  abbrev pub Fresh : Text → Type 0
  Fresh timestamp =
      (max_age ≡ 0)
      ⊎ ((sent_at : ℤ) × (python.int timestamp ≡ some sent_at)
          × (is_expired now sent_at max_age ≡ false))

  check_sent-ok :
      (sent : Option ℤ) (otherwise : Result (Option Response))
      → check_sent python outside options now max_age sent otherwise ≡ ok none
      → ((sent_at : ℤ) × (sent ≡ some sent_at) × (is_expired now sent_at max_age ≡ false))
        × (otherwise ≡ ok none)
  unfolding check_sent
  check_sent-ok none otherwise h = cc
  check_sent-ok (some sent_at) otherwise h = elim (Bool-cases (is_expired now sent_at max_age)) [
    | inl old ↦
        let refused : reject 401 (codes "Signature has expired") ≡ ok none =
          sym (rw old refl) ∙ h in
        cc
    | inr fresh ↦ ((sent_at, refl, fresh), sym (rw fresh refl) ∙ h)
  ]

  check_age-ok :
      (timestamp : Text) (otherwise : Result (Option Response))
      → check_age python outside options now max_age timestamp otherwise ≡ ok none
      → Fresh timestamp × (otherwise ≡ ok none)
  unfolding check_age
  check_age-ok timestamp otherwise h = elim (Bool-cases (max_age == 0)) [
    | inl unlimited ↦ (inl ((==_iff max_age 0).0 unlimited), sym (rw unlimited refl) ∙ h)
    | inr limited ↦
        let (sent, passed) =
          check_sent-ok (python.int timestamp) otherwise (sym (rw limited refl) ∙ h) in
        (inr sent, passed)
  ]

  hmac_timestamp-ok :
      (secret signature : Text) (sent : Option Text)
      → hmac_timestamp python outside options now secret signature timestamp_header sent request
        ≡ ok none
      → (timestamp : Text) × (sent ≡ some timestamp)
        × (build_signature python secret timestamp request.method request.full_path request.body
              algorithm
            ≡ ok signature)
        × Fresh timestamp
  unfolding hmac_timestamp check_signature
  hmac_timestamp-ok secret signature none h = cc
  hmac_timestamp-ok secret signature (some timestamp) h =
      let (fresh, checked) = check_age-ok timestamp _ h in
      let built =
        build_signature python secret timestamp request.method request.full_path request.body
          algorithm in
      let (expected, built_as, compared_to) = first-ok _ built checked in
      let (same, answer, passed) =
        first-ok _ (python.compare_digest signature expected) compared_to in
      let (equal, _) =
        compare_digest-true python.compare_digest signature expected documented
          (answer ∙ ap ok (compared-ok _ same passed)) in
      (timestamp, refl, built_as ∙ ap ok (sym equal), fresh)

  hmac_header-ok :
      (secret : Text) (sent : Option Text)
      → hmac_header python outside options now secret signature_header sent request ≡ ok none
      → (signature : Text) × (sent ≡ some signature)
        × (hmac_timestamp python outside options now secret signature timestamp_header
              (given (request.headers timestamp_header))
              request
            ≡ ok none)
  unfolding hmac_header
  hmac_header-ok secret none h = cc
  hmac_header-ok secret (some signature) h = (signature, refl, h)

  -- With compare_digest as documented: a request that passes HMACAuth carries, in the two headers, a
  -- timestamp and the signature of this timestamp, its method, path and body under the configured
  -- secret; and unless MAX_AGE is 0 the timestamp is a number that is at most MAX_AGE seconds from now.
  pub hmac_auth-accepts :
      hmac_auth python outside options now request ≡ ok none
      → (secret signature timestamp : Text) × (resolve_secret outside options
            (codes "SECRET")
            (codes "SECRET_SETTING")
            (codes "SECRET_ENV")
          ≡ ok secret)
        × (request.headers signature_header ≡ some signature)
        × (request.headers timestamp_header ≡ some timestamp)
        × (build_signature python secret timestamp request.method request.full_path request.body
              algorithm
            ≡ ok signature)
        × Fresh timestamp
  unfolding hmac_auth
  hmac_auth-accepts passed =
      let (secret, resolved, checked) = first-ok _ (resolve_secret outside options _ _ _) passed in
      let (signature, carried, checked') =
        hmac_header-ok secret (given (request.headers signature_header)) checked in
      let (timestamp, sent, built, fresh) =
        hmac_timestamp-ok secret signature (given (request.headers timestamp_header)) checked' in
      (
        secret,
        signature,
        timestamp,
        resolved,
        given-eq-some (request.headers signature_header) signature carried,
        given-eq-some (request.headers timestamp_header) timestamp sent,
        built,
        fresh,
      )
