-- ===== src/Examples/Security.antt =====
-- The theorems on authentication, on a platform whose encoding and digest are plain functions.
use django_tasks_redis.Prelude.{
  ℕ, ◌≡◌, refl, Bool, true, Option, none, some, [], ◌∷◌, ◌++◌, Text, codes, text_eq, Result, ok,
  raise, other_error, any, map, if◌then◌else◌, ◌&&◌, ◌↔◌,
}
use django_tasks_redis.Prelude.Int.{pos}
use django_tasks_redis.Redis.Memory.{Memory, empty}
use django_tasks_redis.Auth.{
  Request, Response, AuthOptions, AuthSettings, Platform, shared_secret, hmac_auth, resolve_secret,
  payload, build_signature,
}
use django_tasks_redis.Auth.Accepted.{
  CompareDigest, shared_secret-accepts, is_ascii, header, prefix, secret_of,
}
use django_tasks_redis.Auth.Signed.{payload_inj, hmac_auth-accepts, Fresh}
use django_tasks_redis.Views.{View, dispatch, error_reply, no_tasks}
use django_tasks_redis.Views.Dispatched.{
  dispatch-authenticates, answering, accepts, rejection, disabled,
}

abbrev compare : Text → Text → Result Bool
compare a b =
    if is_ascii a && is_ascii b then ok (text_eq a b) else raise (other_error (codes "TypeError"))

abbrev python : Platform
python = record {
  encode = λ s. s;
  upper = λ s. s;
  int = λ s. some (pos 1000);
  hexdigest = λ algorithm secret signed. ok (secret ++ signed);
  compare_digest = compare;
}

documented : CompareDigest compare
documented a b = refl

abbrev outside : AuthSettings
outside = record { setting = λ name. none; environ = λ name. none }

abbrev options : AuthOptions
options = record {
  option = λ key.
      if text_eq key (codes "TOKEN")
      then some (codes "secret")
      else if text_eq key (codes "SECRET")
      then some (codes "key")
      else none;
  max_age = none;
}

abbrev request : Text → Text → Request
request name value = record {
  method = codes "POST";
  full_path = codes "/run/";
  headers = λ sent. if text_eq sent name then some value else none;
  body = codes "{}";
  user = none;
}

abbrev bearer : Request
bearer = request (codes "Authorization") (codes "Bearer secret")

shared_secret-accepts_example : (shared_secret python outside options bearer ≡ ok none) ↔ (
    (expected : Text) × (secret_of python documented outside options bearer ≡ ok expected)
    × (bearer.headers (header python documented outside options bearer)
        ≡ some (prefix python documented outside options bearer ++ expected))
    × (is_ascii expected ≡ true))
shared_secret-accepts_example = shared_secret-accepts python documented outside options bearer

payload_inj_example :
    (codes "1000" ≡ codes "1000")
    × (python.upper (codes "POST") ≡ python.upper (codes "POST"))
    × (codes "/run/" ≡ codes "/run/")
    × (codes "{}" ≡ codes "{}")
payload_inj_example =
    payload_inj python options (λ s t e. e) (codes "1000") (codes "POST") (codes "/run/")
      (codes "{}") (codes "1000") (codes "POST") (codes "/run/") (codes "{}") refl refl refl refl
      refl refl refl

abbrev signature : Text
signature = codes "key1000\nPOST\n/run/\n{}"

abbrev signed : Request
signed = record (request (codes "X-Task-Signature") signature) {
  headers = λ sent.
      if text_eq sent (codes "X-Task-Signature")
      then some signature
      else if text_eq sent (codes "X-Task-Timestamp")
      then some (codes "1000")
      else none;
}

abbrev now : ℕ
now = 1100000000

passes : hmac_auth python outside options now signed ≡ ok none
unfolding hmac_auth resolve_secret build_signature payload text_eq
passes = refl

hmac_auth-accepts_example :
    (secret sent timestamp : Text) × (resolve_secret outside options
        (codes "SECRET")
        (codes "SECRET_SETTING")
        (codes "SECRET_ENV")
      ≡ ok secret)
    × (signed.headers (codes "X-Task-Signature") ≡ some sent)
    × (signed.headers (codes "X-Task-Timestamp") ≡ some timestamp)
    × (build_signature python secret timestamp
          (codes "POST")
          (codes "/run/")
          (codes "{}")
          (codes "sha256")
        ≡ ok sent)
    × Fresh python documented outside options now signed timestamp
unfolding text_eq
hmac_auth-accepts_example = hmac_auth-accepts python documented outside options now signed passes

-- Two handlers: the first one rejects, the second one accepts.
abbrev rejects : Request → Option Response
rejects r = some (record { status = 401; error = codes "Invalid token" })

abbrev accepts_all : Request → Option Response
accepts_all r = none

abbrev view : View Memory
view s = some (ok no_tasks, s)

dispatch-authenticates_example :
    dispatch (some (map answering (rejects ∷ accepts_all ∷ []))) bearer view empty ≡ (
      if any (accepts bearer) (rejects ∷ accepts_all ∷ [])
      then view empty
      else some (ok (error_reply (rejection (rejects ∷ accepts_all ∷ []) bearer disabled)), empty))
dispatch-authenticates_example =
    dispatch-authenticates bearer view empty (rejects ∷ accepts_all ∷ [])
