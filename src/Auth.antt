-- ===== src/Auth.antt =====
-- The authentication handlers of the HTTP endpoints (auth.py).
pub mod Handlers
pub mod Accepted
pub mod Signed
use django_tasks_redis.Prelude.{
  ℕ, ◌+◌, ◌-◌, ◌*◌, Bool, true, false, not, ◌&&◌, Option, none, some, List, [], ◌∷◌, ◌++◌, Text,
  codes, text_eq, if◌then◌else◌, or_else, ltb, all, ◌==◌, Result, ok, raise, improperly_configured,
}
use django_tasks_redis.Prelude.Checked.{◌>>=◌}
use django_tasks_redis.Prelude.Int.{ℤ, pos_part, neg_part}
use django_tasks_redis.Backend.Config.{usec}

-- request.user
pub record User : Type 0 where
  pub is_authenticated : Bool
  pub is_staff : Bool

-- What the handlers read of a Django request.
pub record Request : Type 0 where
  pub method : Text
  pub full_path : Text
  pub headers : Text → Option Text
  pub body : Text
  pub user : Option User

-- JsonResponse({"error": …}, status=…)
pub record Response : Type 0 where
  pub status : ℕ
  pub error : Text

-- The options of a handler: those that are text, and MAX_AGE in seconds.
pub record AuthOptions : Type 0 where
  pub option : Text → Option Text
  pub max_age : Option ℕ

-- The settings of Django and the environment of the process.
pub record AuthSettings : Type 0 where
  pub setting : Text → Option Text
  pub environ : Text → Option Text

-- The parts of Python that signatures use: str.encode, str.upper, int(), hmac.new(…).hexdigest() for
-- the name of an algorithm, and hmac.compare_digest.
pub record Platform : Type 0 where
  pub encode : Text → Text
  pub upper : Text → Text
  pub int : Text → Option ℤ
  pub hexdigest : Text → Text → Text → Result Text
  pub compare_digest : Text → Text → Result Bool

-- `if value`: a text that is there and not empty.
abbrev pub given : Option Text → Option Text
given none = none
given (some []) = none
given (some (c ∷ cs)) = some (c ∷ cs)

-- `if not value: raise ImproperlyConfigured(…)`
abbrev required : Option Text → Result Text
required none = raise improperly_configured
required (some value) = ok value

-- The entry whose value is given, else the next one.
abbrev named : Option Text → (Text → Option Text) → Result Text → Result Text
named none source otherwise = otherwise
named (some name) source otherwise = required (given (source name))

abbrev stated : Option Text → Result Text → Result Text
stated none otherwise = otherwise
stated (some value) otherwise = ok value

-- resolve_secret
unfoldable pub resolve_secret : AuthSettings → AuthOptions → Text → Text → Text → Result Text
resolve_secret outside options value_key setting_key env_key =
    stated (given (options.option value_key)) (
      named (given (options.option setting_key)) outside.setting
        (named (given (options.option env_key)) outside.environ (raise improperly_configured)))

abbrev pub get_option : AuthOptions → Text → Text → Text
get_option options key default = or_else (options.option key) default

abbrev pub reject : ℕ → Text → Result (Option Response)
reject status error = ok (some (record { status = status; error = error }))

-- `provided.startswith(prefix)` and `provided[len(prefix):]`
unfoldable pub strip_prefix : Text → Text → Option Text
strip_prefix [] provided = some provided
strip_prefix (p ∷ prefix) [] = none
strip_prefix (p ∷ prefix) (c ∷ provided) =
    let rest = strip_prefix prefix provided in if p == c then rest else none

-- The prefix of a scheme, f"{scheme} ", and none to strip for an empty scheme.
abbrev pub scheme_prefix : Text → Text
scheme_prefix [] = []
scheme_prefix (c ∷ cs) = (c ∷ cs) ++ codes " "

abbrev compared : Text → Bool → Result (Option Response)
compared error true = ok none
compared error false = reject 401 error

module _ (python : Platform) where
  -- b"\n".join([timestamp, method, path, body])
  unfoldable pub payload : Text → Text → Text → Text → Text
  payload timestamp method path body =
      python.encode timestamp
      ++ b'\n'
        ∷ (python.encode (python.upper method) ++ b'\n' ∷ (python.encode path ++ b'\n' ∷ body))

  -- build_signature, of a body in bytes
  unfoldable pub build_signature : Text → Text → Text → Text → Text → Text → Result Text
  unfolding payload
  build_signature secret timestamp method path body algorithm =
      python.hexdigest algorithm (python.encode secret) (payload timestamp method path body)

-- `abs(time.time() - sent_at) > max_age`
abbrev pub is_expired : ℕ → ℤ → ℕ → Bool
is_expired now sent_at max_age =
    let ahead = pos_part sent_at * usec in
    let behind = now + neg_part sent_at * usec in
    ltb (max_age * usec) ((behind - ahead) + (ahead - behind))

module _ (python : Platform) (outside : AuthSettings) (options : AuthOptions) where
  token_of : Text → Text → Option Text → Result (Option Response)
  token_of expected header none = reject 401 (codes "Invalid " ++ header ++ codes " header")
  token_of expected header (some token) = do
    same ← python.compare_digest token expected
    compared (codes "Invalid token") same

  shared_secret_header : Text → Text → Option Text → Result (Option Response)
  unfolding token_of strip_prefix
  shared_secret_header expected header none =
      reject 401 (codes "Missing " ++ header ++ codes " header")
  shared_secret_header expected header (some provided) =
      token_of expected header (
        strip_prefix (scheme_prefix (get_option options (codes "SCHEME") (codes "Bearer")))
          provided)

  -- SharedSecretAuth.authenticate: none accepts, a response rejects.
  unfoldable pub shared_secret : Request → Result (Option Response)
  unfolding shared_secret_header resolve_secret
  shared_secret request = do
    expected ←
        resolve_secret outside options (codes "TOKEN") (codes "TOKEN_SETTING") (codes "TOKEN_ENV")
    let header = get_option options (codes "HEADER") (codes "Authorization")
    shared_secret_header expected header (given (request.headers header))

  check_sent : ℕ → ℕ → Option ℤ → Result (Option Response) → Result (Option Response)
  check_sent now max_age none otherwise = reject 401 (codes "Invalid timestamp")
  check_sent now max_age (some sent_at) otherwise =
      if is_expired now sent_at max_age
      then reject 401 (codes "Signature has expired")
      else otherwise

  -- `if max_age:`
  check_age : ℕ → ℕ → Text → Result (Option Response) → Result (Option Response)
  unfolding check_sent
  check_age now max_age timestamp otherwise =
      if max_age == 0 then otherwise else check_sent now max_age (python.int timestamp) otherwise

  check_signature : Text → Text → Text → Request → Result (Option Response)
  unfolding build_signature
  check_signature secret provided timestamp request = do
    expected ←
        build_signature python secret timestamp request.method request.full_path request.body
          (get_option options (codes "ALGORITHM") (codes "sha256"))
    same ← python.compare_digest provided expected
    compared (codes "Invalid signature") same

  hmac_timestamp : ℕ → Text → Text → Text → Option Text → Request → Result (Option Response)
  unfolding check_age check_signature
  hmac_timestamp now secret provided timestamp_header none request =
      reject 401 (codes "Missing " ++ timestamp_header ++ codes " header")
  hmac_timestamp now secret provided timestamp_header (some timestamp) request =
      check_age now (or_else options.max_age 300) timestamp
        (check_signature secret provided timestamp request)

  hmac_header : ℕ → Text → Text → Option Text → Request → Result (Option Response)
  unfolding hmac_timestamp
  hmac_header now secret header none request =
      reject 401 (codes "Missing " ++ header ++ codes " header")
  hmac_header now secret header (some provided) request =
      let timestamp_header =
        get_option options (codes "TIMESTAMP_HEADER") (codes "X-Task-Timestamp") in
      hmac_timestamp now secret provided timestamp_header (given (request.headers timestamp_header))
        request

  -- HMACAuth.authenticate; `now` is time.time() in microseconds.
  unfoldable pub hmac_auth : ℕ → Request → Result (Option Response)
  unfolding hmac_header resolve_secret
  hmac_auth now request = do
    secret ←
        resolve_secret outside options (codes "SECRET") (codes "SECRET_SETTING")
          (codes "SECRET_ENV")
    let header = get_option options (codes "HEADER") (codes "X-Task-Signature")
    hmac_header now secret header (given (request.headers header)) request

-- StaffOnlyAuth.authenticate
staff_user : Option User → Result (Option Response)
staff_user none = raise improperly_configured
staff_user (some user) =
    if not user.is_authenticated
    then reject 401 (codes "Authentication required")
    else if not user.is_staff
    then reject 403 (codes "Staff privileges required")
    else ok none

unfoldable pub staff_only : Request → Result (Option Response)
unfolding staff_user
staff_only request = staff_user request.user
