-- ===== src/Auth/Accepted.antt =====
-- Which requests the handlers let in (auth.py).
use django_tasks_redis.Prelude.{
  ◌≡◌, refl, sym, ap, ◌∙◌, ◌↔◌, Bool, true, false, ◌&&◌, Option, none, some, [], ◌∷◌, ◌++◌, Text,
  codes, text_eq, text_eq_refl, text_eq_sound, Result, ok, raise, ok_inj, improperly_configured,
  other_error, Bool-cases, inl, inr, if◌then◌else◌, ltb, all, arith, ==_iff, ==_refl, ◌==◌,
}
use django_tasks_redis.Prelude.Checked.{first-ok}
use django_tasks_redis.Auth.{
  Request, AuthOptions, AuthSettings, Platform, resolve_secret, shared_secret, shared_secret_header,
  token_of, given, get_option, scheme_prefix, strip_prefix, compared, stated, named, required,
}

-- str.isascii
abbrev pub is_ascii : Text → Bool
is_ascii = all (λ c. ltb c 128)

-- What hmac.compare_digest documents of two str: equality, and TypeError beyond ASCII.
abbrev pub CompareDigest : (Text → Text → Result Bool) → Type 0
CompareDigest compare =
    (a b : Text)
    → compare a b ≡ (
        if is_ascii a && is_ascii b
        then ok (text_eq a b)
        else raise (other_error (codes "TypeError")))

strip_prefix-eq-some :
    (prefix provided token : Text)
    → strip_prefix prefix provided ≡ some token
    → provided ≡ prefix ++ token
unfolding strip_prefix
strip_prefix-eq-some [] provided token h = cc
strip_prefix-eq-some (p ∷ prefix) [] token h = cc
strip_prefix-eq-some (p ∷ prefix) (c ∷ provided) token h = elim (Bool-cases (p == c)) [
  | inl same ↦
      let rest : strip_prefix prefix provided ≡ some token = sym (rw same refl) ∙ h in
      rw (← (==_iff p c).0 same) (ap (λ t. p ∷ t) (strip_prefix-eq-some prefix provided token rest))
  | inr other ↦ let absent : none ≡ some token = sym (rw other refl) ∙ h in cc
]

strip_prefix-append : (prefix token : Text) → strip_prefix prefix (prefix ++ token) ≡ some token
unfolding strip_prefix
strip_prefix-append [] token = refl
strip_prefix-append (p ∷ prefix) token = rw (==_refl p) (strip_prefix-append prefix token)

pub given-eq-some : (o : Option Text) (v : Text) → given o ≡ some v → o ≡ some v
given-eq-some none v h = cc
given-eq-some (some []) v h = cc
given-eq-some (some (c ∷ cs)) v h = h

pub required-given :
    (o : Option Text) (secret : Text)
    → required (given o) ≡ ok secret
    → given (some secret) ≡ some secret
required-given none secret h = cc
required-given (some []) secret h = cc
required-given (some (c ∷ cs)) secret h = rw (← ok_inj (c ∷ cs) secret h) refl

stated-given :
    (o : Option Text) (otherwise : Result Text) (secret : Text)
    → (otherwise ≡ ok secret → given (some secret) ≡ some secret)
    → stated (given o) otherwise ≡ ok secret
    → given (some secret) ≡ some secret
stated-given none otherwise secret later h = later h
stated-given (some []) otherwise secret later h = later h
stated-given (some (c ∷ cs)) otherwise secret later h = rw (← ok_inj (c ∷ cs) secret h) refl

named-given :
    (name : Option Text) (source : Text → Option Text) (otherwise : Result Text) (secret : Text)
    → (otherwise ≡ ok secret → given (some secret) ≡ some secret)
    → named name source otherwise ≡ ok secret
    → given (some secret) ≡ some secret
named-given none source otherwise secret later h = later h
named-given (some name) source otherwise secret later h = required-given (source name) secret h

-- A secret that was resolved is not empty.
resolve_secret-given :
    (outside : AuthSettings) (options : AuthOptions) (value_key setting_key env_key secret : Text)
    → resolve_secret outside options value_key setting_key env_key ≡ ok secret
    → given (some secret) ≡ some secret
unfolding resolve_secret
resolve_secret-given outside options value_key setting_key env_key secret =
    stated-given (options.option value_key) _ secret (
      named-given (given (options.option setting_key)) outside.setting _ secret (
        named-given (given (options.option env_key)) outside.environ (raise improperly_configured)
          secret (λ h. cc)))

append-given :
    (prefix token : Text)
    → given (some token) ≡ some token
    → given (some (prefix ++ token)) ≡ some (prefix ++ token)
append-given [] token h = h
append-given (c ∷ prefix) token h = refl

pub compared-ok : (error : Text) (same : Bool) → compared error same ≡ ok none → same ≡ true
compared-ok error true h = refl
compared-ok error false h = cc

-- Two texts that compare as equal.
pub compare_digest-true :
    (compare : Text → Text → Result Bool) (a b : Text)
    → CompareDigest compare
    → compare a b ≡ ok true
    → (a ≡ b) × (is_ascii b ≡ true)
compare_digest-true compare a b documented same =
    let answer = sym (documented a b) ∙ same in
    elim (Bool-cases (is_ascii a && is_ascii b)) [
      | inl plain ↦
          let equal : ok (text_eq a b) ≡ ok true = sym (rw plain refl) ∙ answer in
          (text_eq_sound a b (ok_inj _ _ equal), ground (arith, plain))
      | inr other ↦
          let raised : raise (other_error (codes "TypeError")) ≡ ok true =
            sym (rw other refl) ∙ answer in
          cc
    ]

compare_digest_self :
    (compare : Text → Text → Result Bool) (a : Text)
    → CompareDigest compare
    → is_ascii a ≡ true
    → compare a a ≡ ok true
compare_digest_self compare a documented plain = documented a a ∙ rw (plain, text_eq_refl) refl

module _ (python : Platform) (documented : CompareDigest python.compare_digest)
    (outside : AuthSettings) (options : AuthOptions) (request : Request) where
  abbrev pub header : Text
  header = get_option options (codes "HEADER") (codes "Authorization")

  abbrev pub prefix : Text
  prefix = scheme_prefix (get_option options (codes "SCHEME") (codes "Bearer"))

  abbrev pub secret_of : Result Text
  secret_of =
      resolve_secret outside options (codes "TOKEN") (codes "TOKEN_SETTING") (codes "TOKEN_ENV")

  token_of-ok :
      (expected : Text) (found : Option Text)
      → token_of python outside options expected header found ≡ ok none
      → (found ≡ some expected) × (is_ascii expected ≡ true)
  unfolding token_of
  token_of-ok expected none h = cc
  token_of-ok expected (some token) h =
      let (same, answer, passed) = first-ok _ (python.compare_digest token expected) h in
      let (equal, plain) =
        compare_digest-true python.compare_digest token expected documented
          (answer ∙ ap ok (compared-ok _ same passed)) in
      (ap some equal, plain)

  shared_secret_header-ok :
      (expected : Text) (value : Option Text)
      → shared_secret_header python outside options expected header (given value) ≡ ok none
      → (value ≡ some (prefix ++ expected)) × (is_ascii expected ≡ true)
  unfolding shared_secret_header
  shared_secret_header-ok expected none h = cc
  shared_secret_header-ok expected (some []) h = cc
  shared_secret_header-ok expected (some (c ∷ cs)) h =
      let (stripped, plain) = token_of-ok expected (strip_prefix prefix (c ∷ cs)) h in
      (ap some (strip_prefix-eq-some prefix (c ∷ cs) expected stripped), plain)

  shared_secret_header-whole :
      (expected : Text)
      → is_ascii expected ≡ true
      → shared_secret_header python outside options expected header (some (prefix ++ expected))
        ≡ ok none
  unfolding shared_secret_header token_of
  shared_secret_header-whole expected plain = rw (
    strip_prefix-append prefix expected,
    compare_digest_self python.compare_digest expected documented plain,
  )

  -- With compare_digest as documented: a request passes SharedSecretAuth exactly if a secret is
  -- configured, is ASCII, and the header carries the prefix of the scheme followed by the secret, and
  -- nothing else.
  pub shared_secret-accepts : (shared_secret python outside options request ≡ ok none) ↔ (
      (expected : Text) × (secret_of ≡ ok expected)
      × (request.headers header ≡ some (prefix ++ expected))
      × (is_ascii expected ≡ true))
  unfolding shared_secret
  shared_secret-accepts = (
    λ passed.
        let (expected, resolved, checked) = first-ok _ secret_of passed in
        let (sent, plain) = shared_secret_header-ok expected (request.headers header) checked in
        (expected, resolved, sent, plain),
    λ configured.
        let (expected, resolved, sent, plain) = configured in
        let whole =
          append-given prefix expected
            (resolve_secret-given outside options _ _ _ expected resolved) in
        rw resolved (
          ap (λ value. shared_secret_header python outside options expected header (given value))
            sent
          ∙ ap (shared_secret_header python outside options expected header) whole
          ∙ shared_secret_header-whole expected plain),
  )
