-- ===== src/Views/Dispatched.antt =====
-- A request reaches a view only past a handler that accepts it (views.py, TaskEndpointMixin.dispatch).
use django_tasks_redis.Prelude.{
  ◌≡◌, refl, Bool, not, Option, some, List, [], ◌∷◌, codes, any, map, if◌then◌else◌, ok, or_else,
  is_some, Option-cases, inl, inr,
}
use django_tasks_redis.Auth.{Request, Response}
use django_tasks_redis.Auth.Handlers.{Handler}
use django_tasks_redis.Views.{error_reply, View, dispatch, try_handlers}

-- A handler that does not raise.
abbrev pub answering : (Request → Option Response) → Handler
answering answer request = ok (answer request)

abbrev pub accepts : Request → (Request → Option Response) → Bool
accepts request answer = not (is_some (answer request))

-- The rejection that a caller sees if no handler accepts.
abbrev pub rejection : List (Request → Option Response) → Request → Response → Response
rejection [] request otherwise = otherwise
rejection (answer ∷ answers) request otherwise = or_else (answer request) otherwise

abbrev pub disabled : Response
disabled = record {
  status = 403;
  error =
      codes
        "Task endpoints are disabled. Override get_auth_handlers() on the task backend, or set the AUTH_HANDLERS option, to enable them.";
}

module _ {S : Type 0} (request : Request) (view : View S) (s : S) where
  try_handlers_later :
      (answers : List (Request → Option Response)) (first : Response)
      → try_handlers (some first) (map answering answers) request view s
        ≡ (if any (accepts request) answers then view s else some (ok (error_reply first), s))
  unfolding try_handlers
  try_handlers_later [] first = refl
  try_handlers_later (answer ∷ answers) first = elim (Option-cases (answer request)) [
    | inl accepted ↦ rw accepted refl
    | inr (r, rejected) ↦ rw rejected (try_handlers_later answers first)
  ]

  -- Of handlers that do not raise: the view is run exactly if one of them accepts the request, whatever
  -- those before it said. Otherwise the store is left alone and the caller sees the rejection of the
  -- first handler, or, where the backend has none, that the endpoints are closed.
  pub dispatch-authenticates :
      (answers : List (Request → Option Response))
      → dispatch (some (map answering answers)) request view s ≡ (
          if any (accepts request) answers
          then view s
          else some (ok (error_reply (rejection answers request disabled)), s))
  unfolding dispatch try_handlers
  dispatch-authenticates [] = refl
  dispatch-authenticates (answer ∷ answers) = elim (Option-cases (answer request)) [
    | inl accepted ↦ rw accepted refl
    | inr (r, rejected) ↦ rw rejected (try_handlers_later answers r)
  ]
