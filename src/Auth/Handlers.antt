-- ===== src/Auth/Handlers.antt =====
-- Building the handlers from the settings (auth.py, load_auth_handlers) and choosing those of an endpoint
-- (backends.py, get_auth_handlers).
use django_tasks_redis.Prelude.{
  ℕ, Bool, true, Option, none, some, List, [], ◌∷◌, ◌++◌, Text, codes, text_eq, any, all, select,
  map, if◌then◌else◌, Result, ok, raise, improperly_configured,
}
use django_tasks_redis.Prelude.Checked.{◌>>=◌}
use django_tasks_redis.Auth.{Request, Response, AuthOptions}

-- A handler takes a request; none accepts it, a response rejects it.
abbrev pub Handler : Type 0
Handler = Request → Result (Option Response)

-- What a setting or a dotted path names: a class, which may build something that is not callable, a
-- callable, or another object.
pub data Target : Type 0 where
  handler_class : (AuthOptions → Option Handler) → Target
  handler : Handler → Target
  not_callable : Target

pub data Reference : Type 0 where
  dotted_path : Text → Reference
  direct : Target → Reference

-- The keys of an entry that is a dict.
pub record EntryDict : Type 0 where
  pub handler_key : Option Reference
  pub options : Option AuthOptions
  pub endpoints : Option (List Text)

pub data Entry : Type 0 where
  reference : Reference → Entry
  entry_dict : EntryDict → Entry

-- AUTH_ENDPOINTS
abbrev pub auth_endpoints : List Text
auth_endpoints =
    codes "run" ∷ codes "run_one" ∷ codes "status" ∷ codes "execute" ∷ codes "purge" ∷ []

abbrev pub member : Text → List Text → Bool
member name = any (text_eq name)

-- `options.update(…)`: the later dict wins.
abbrev option_of : Option Text → Option Text → Option Text
option_of none old = old
option_of (some new) old = some new

abbrev age_of : Option ℕ → Option ℕ → Option ℕ
age_of none old = old
age_of (some new) old = some new

abbrev update : AuthOptions → Option AuthOptions → AuthOptions
update defaults none = defaults
update defaults (some options) = record {
  option = λ key. option_of (options.option key) (defaults.option key);
  max_age = age_of options.max_age defaults.max_age;
}

-- `import_string` of Django, none for an ImportError.
module _ (import_string : Text → Option Target) where
  imported : Option Target → Result Target
  imported none = raise improperly_configured
  imported (some target) = ok target

  resolve_reference : Reference → Result Target
  unfolding imported
  resolve_reference (dotted_path path) = imported (import_string path)
  resolve_reference (direct target) = ok target

  built : Option Handler → Result Handler
  built none = raise improperly_configured
  built (some made) = ok made

  make_handler : AuthOptions → Target → Result Handler
  unfolding built
  make_handler options (handler_class make) = built (make options)
  make_handler options (handler made) = ok made
  make_handler options not_callable = raise improperly_configured

  make_spec : AuthOptions → Option (List Text) → Reference → Result (Handler × Option (List Text))
  unfolding resolve_reference make_handler
  make_spec options endpoints source = do
    target ← resolve_reference source
    made ← make_handler options target
    ok (made, endpoints)

  check_endpoints :
      AuthOptions → Option (List Text) → Reference → Result (Handler × Option (List Text))
  unfolding make_spec
  check_endpoints options none source = make_spec options none source
  check_endpoints options (some names) source =
      let checked = make_spec options (some names) source in
      if all (λ name. member name auth_endpoints) names
      then checked
      else raise improperly_configured

  load_keyed :
      AuthOptions → Option Reference → Option (List Text) → Result (Handler × Option (List Text))
  unfolding check_endpoints
  load_keyed options none endpoints = raise improperly_configured
  load_keyed options (some source) endpoints = check_endpoints options endpoints source

  -- load_auth_handler: the handler and the endpoints that it applies to, none for all of them.
  unfoldable pub load_auth_handler : AuthOptions → Entry → Result (Handler × Option (List Text))
  unfolding load_keyed make_spec
  load_auth_handler defaults (reference source) = make_spec defaults none source
  load_auth_handler defaults (entry_dict entry) =
      load_keyed (update defaults entry.options) entry.handler_key entry.endpoints

  -- load_auth_handlers
  unfoldable pub load_auth_handlers :
      AuthOptions → List Entry → Result (List (Handler × Option (List Text)))
  load_auth_handlers defaults [] = ok []
  load_auth_handlers defaults (entry ∷ entries) = do
    spec ← load_auth_handler defaults entry
    specs ← load_auth_handlers defaults entries
    ok (spec ∷ specs)

-- `endpoint is None or endpoints is None or endpoint in endpoints`
abbrev pub applies : Option Text → Option (List Text) → Bool
applies none endpoints = true
applies (some endpoint) none = true
applies (some endpoint) (some names) = member endpoint names

-- get_configured_auth_handlers, of the loaded specifications
unfoldable pub get_configured_auth_handlers :
    List (Handler × Option (List Text)) → Option Text → List Handler
get_configured_auth_handlers specs endpoint =
    map (λ (spec : Handler × Option (List Text)). spec.0)
      (select (λ (spec : Handler × Option (List Text)). applies endpoint spec.1) specs)

-- get_auth_handlers: those of the broker first.
unfoldable pub get_auth_handlers :
    (Option Text → List Handler) → List (Handler × Option (List Text)) → Option Text → List Handler
get_auth_handlers broker_handlers specs endpoint =
    broker_handlers endpoint ++ get_configured_auth_handlers specs endpoint
