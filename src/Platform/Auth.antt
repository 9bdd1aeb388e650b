-- ===== src/Platform/Auth.antt =====
-- app/platform/security/middleware.py: the authentication middleware of REST. The verifier and the
-- resolver are what the middleware is built with.
use dop_api.Base.{
  ℕ, String, Bool, true, false, Option, none, some, List, [], ◌∷◌, Dict, ◌||◌, is_empty, is_in,
  remove_prefix, strip, if◌then◌else◌,
}
use dop_api.Platform.Context.{Principal, AuthContext}
use dop_api.Platform.Errors.{Error, done, raised}
use dop_api.Platform.Edge.{Edge}
use dop_api.Platform.Firebase.{Verdict, verified, invalid, crashed}
use dop_api.Platform.Routes.{HttpRequest}

-- What the resolver finds out: the triple `(user_id, role, grants)`.
pub record Identity : Type 0 where
  pub user_id : String
  pub role : String
  pub grants : Dict String

abbrev pub no_identity : Identity
no_identity = record { user_id = ""; role = ""; grants = [] }

-- The middleware's own JSON answer, or the application's.
pub data Response {ℓ} (A : Type ℓ) : Type ℓ where
  json : ℕ → String → Response A
  handled : A → Response A

abbrev pub exempt_paths : List String
exempt_paths = "/healthz" ∷ "/docs" ∷ "/openapi.json" ∷ []

abbrev pub bare_token : String → String
bare_token raw = strip (remove_prefix "Bearer " raw)

-- The context that a verified and resolved caller gets.
abbrev pub auth_context : Principal → String → String → Identity → AuthContext
auth_context principal token account i = record {
  principal = principal;
  raw_token = token;
  user_id = i.user_id;
  account_id = account;
  role = i.role;
  grants = i.grants;
}

abbrev pub Resolver : Type 0 → Type 0
Resolver W = Principal → String → String → Edge W Identity

-- How a failure of the resolver is answered.
abbrev pub unresolved {ℓ} : {A : Type ℓ} → Error → Response A
unresolved (Error.http e) = json e.status_code e.detail
unresolved _ = json 503 "Failed to resolve the account"

-- The resolver, where there is one and the route wants it.
abbrev pub resolve_unless :
    {W : Type 0} → Bool → Option (Resolver W) → Principal → String → String → Edge W Identity
resolve_unless skip none principal account token s w = (done no_identity, w)
resolve_unless true (some resolver) principal account token s w = (done no_identity, w)
resolve_unless false (some resolver) principal account token s w =
    resolver principal account token s w

module _ {W A : Type 0} (verify : String → W → Verdict Principal × W)
    (resolver : Option (Resolver W)) (is_public is_token_only : HttpRequest → Bool) where
  -- `AuthMiddleware.dispatch`.
  unfoldable pub dispatch : HttpRequest → Edge W (Response A) → Edge W (Response A)
  dispatch req call_next s w =
      let (verdict, w') = verify req.authorization w in
      if is_public req || is_in req.path exempt_paths
      then call_next s w
      else if is_empty req.authorization
      then (done (json 401 "Not authenticated"), w)
      else elim verdict [
        | invalid e ↦ (done (json 401 e), w')
        | crashed e ↦ (raised (Error.failure e), w')
        | verified principal ↦
            let token = bare_token req.authorization in
            let (found, w'') =
              resolve_unless (is_token_only req) resolver principal req.account token s w' in
            elim found [
              | raised e ↦ (done (unresolved e), w'')
              | done i ↦
                  call_next
                    (record s { auth_ctx = some (auth_context principal token req.account i) }) w''
            ]
      ]
