-- ===== src/Platform/Decorator.antt =====
-- app/platform/security/decorator.py: the authorization decorators over a use case.
pub mod Laws
use dop_api.Base.{
  ℕ, String, Option, none, some, List, Dict, string_eq, is_empty, or_text, get_default, ltb,
  if◌then◌else◌, ◌<>◌, [], ◌∷◌,
}
use dop_api.Platform.Context.{Scope, AuthContext, has_role, grant_level}
use dop_api.Platform.Errors.{Result, done, raised, refuse}
use dop_api.Platform.Edge.{Edge}

-- `_ctx_or_401`.
unfoldable pub ctx_or_401 : Scope → Result AuthContext
ctx_or_401 s = elim s.auth_ctx [ none ↦ refuse 401 "Not authenticated" | some ctx ↦ done ctx ]

module _ {W A : Type 0} where
  -- `_wrap`: a check of the context, and then the function.
  unfoldable pub wrap : (AuthContext → Result (Unit {0})) → Edge W A → Edge W A
  unfolding ctx_or_401
  wrap check func s w = elim (ctx_or_401 s) [
    | raised e ↦ (raised e, w)
    | done ctx ↦ elim (check ctx) [ raised e ↦ (raised e, w) | done _ ↦ func s w ]
  ]

  unfoldable pub account_scoped : Edge W A → Edge W A
  unfolding wrap
  account_scoped =
      wrap
        λ ctx. if is_empty ctx.account_id then refuse 400 "No active account selected" else done tt

  unfoldable pub require_role : List String → Edge W A → Edge W A
  unfolding wrap
  require_role roles = wrap λ ctx.
      if is_empty ctx.account_id
      then refuse 400 "No active account selected"
      else if has_role ctx roles
      then done tt
      else refuse 403 "Insufficient permission"

abbrev pub ranking : Dict ℕ
ranking = ("use", 1) ∷ ("manage", 2) ∷ []

-- The check of one caller, in `check_with`.
pub grant_check : String → String → String → AuthContext → Result (Unit {0})
grant_check level param resource ctx =
    if is_empty resource
    then refuse 400 ("Missing parameter " <> param)
    else if ltb (get_default ranking (or_text (grant_level ctx resource) "") 0)
        (get_default ranking level 1)
    then refuse 403 ("No '" <> level <> "' grant over the resource")
    else done tt

module _ {W A : Type 0} where
  -- `require_grant(level, param=…)`; `resource` is `kwargs.get(param)`.
  pub require_grant : String → String → Option String → Edge W A → Edge W A
  unfolding wrap
  require_grant level param resource = wrap (grant_check level param (or_text resource ""))

-- The roles of the use cases' `@require_role` lines: management, and everyone but a viewer.
abbrev pub managers : List String
managers = "owner" ∷ "admin" ∷ []

abbrev pub writers : List String
writers = "owner" ∷ "admin" ∷ "developer" ∷ []
