-- ===== src/Platform/Decorator/Laws.antt =====
-- When a decorated use case runs, and what a refusal leaves behind.
use dop_api.Platform.Decorator.{grant_check, ranking, account_scoped, require_role, require_grant}
use dop_api.Base.{
  is_in, none, ltb, Bool-cases, get_default, Option-cases, String, true, false, Option, some, List,
  ◌≡◌, ◌⊎◌, inl, inr, is_empty, arith, eq_iff, string_eq, or_text,
}
use dop_api.Platform.Context.{Scope, AuthContext, has_role, grant_level}
use dop_api.Platform.Errors.{HttpException, Error, raised, Result, done, refuse}
use dop_api.Platform.Edge.{Edge, pure}

-- How a caller is refused: by the edge's own HTTP error, with the world as it was.
pub data IsRefusal {W A : Type 0} (roles : List String) (s : Scope) (w : W) (r : Result A × W)
    : Type 0 where
  unknown : s.auth_ctx ≡ none → r ≡ (refuse 401 "Not authenticated", w) → IsRefusal roles s w r
  accountless :
      (ctx : AuthContext)
      → s.auth_ctx ≡ some ctx
      → is_empty ctx.account_id ≡ true
      → r ≡ (refuse 400 "No active account selected", w)
      → IsRefusal roles s w r
  unfit :
      (ctx : AuthContext)
      → s.auth_ctx ≡ some ctx
      → is_empty ctx.account_id ≡ false
      → is_in ctx.role roles ≡ false
      → r ≡ (refuse 403 "Insufficient permission", w)
      → IsRefusal roles s w r

-- A caller with an account and one of the roles.
pub record IsAllowed (roles : List String) (s : Scope) : Type 0 where
  pub ctx : AuthContext
  pub here : s.auth_ctx ≡ some ctx
  pub account : is_empty ctx.account_id ≡ false
  pub role : is_in ctx.role roles ≡ true

module _ {W A : Type 0} (roles : List String) (f : Edge W A) (s : Scope) (w : W) where
  pub role_missing :
      (ctx : AuthContext)
      → s.auth_ctx ≡ some ctx
      → is_empty ctx.account_id ≡ false
      → has_role ctx roles ≡ false
      → account_scoped (require_role roles f) s w ≡ (refuse 403 "Insufficient permission", w)
  unfolding account_scoped require_role
  role_missing ctx here account lacks = ground arith

  -- A use case behind `@account_scoped` and `@require_role` runs as it is for a caller with an
  -- active account and one of the roles. Without a caller it refuses with 401, to a caller without
  -- an active account with 400, to one whose role is none of those with 403, each time with the
  -- world as it was, so that nothing has been sent.
  pub guarded_outcome :
      (IsAllowed roles s × (account_scoped (require_role roles f) s w ≡ f s w))
      ⊎ IsRefusal roles s w (account_scoped (require_role roles f) s w)
  unfolding account_scoped require_role
  guarded_outcome = elim (Option-cases s.auth_ctx) [
    | inl missing ↦ inr (unknown missing (ground arith))
    | inr (ctx, here) ↦ elim (Bool-cases (is_empty ctx.account_id)) [
      | inl lacks ↦ inr (accountless ctx here lacks (ground arith))
      | inr account ↦ elim (Bool-cases (is_in ctx.role roles)) [
        | inl role ↦
            inl (record { ctx = ctx; here = here; account = account; role = role }, ground arith)
        | inr lacks ↦ inr (unfit ctx here account lacks (role_missing ctx here account lacks))
      ]
    ]
  ]

  pub role_present : IsAllowed roles s → account_scoped (require_role roles f) s w ≡ f s w
  unfolding account_scoped require_role
  role_present a = ground arith

module _ {W A : Type 0} (f : Edge W A) (s : Scope) (w : W) where
  pub account_missing :
      (ctx : AuthContext)
      → s.auth_ctx ≡ some ctx
      → is_empty ctx.account_id ≡ true
      → account_scoped f s w ≡ (refuse 400 "No active account selected", w)
  unfolding account_scoped
  account_missing ctx here lacks = ground arith

  pub account_present :
      (ctx : AuthContext)
      → s.auth_ctx ≡ some ctx
      → is_empty ctx.account_id ≡ false
      → account_scoped f s w ≡ f s w
  unfolding account_scoped
  account_present ctx here account = ground arith

ltb-ranking : (level : String) → ltb 2 (get_default ranking level 1) ≡ false
ltb-ranking level = ground arith

grant_level-owner :
    (ctx : AuthContext) (resource : String)
    → (ctx.role ≡ "owner") ⊎ (ctx.role ≡ "admin")
    → grant_level ctx resource ≡ some "manage"
unfolding grant_level
grant_level-owner ctx resource role =
    ground (arith, eq_iff ctx.role "owner", eq_iff ctx.role "admin")

check-owner :
    (level param resource : String) (ctx : AuthContext)
    → is_empty resource ≡ false
    → (ctx.role ≡ "owner") ⊎ (ctx.role ≡ "admin")
    → grant_check level param resource ctx ≡ done tt
unfolding grant_check
check-owner level param resource ctx asked role =
    rw (asked, grant_level-owner ctx resource role) (rw (ltb-ranking level))

check-manage :
    (param resource : String) (ctx : AuthContext)
    → grant_check "manage" param resource ctx ≡ done tt
    → grant_check "use" param resource ctx ≡ done tt
unfolding grant_check
check-manage param resource ctx passes = ground arith

-- Whoever passes a requirement of `manage` over a resource passes one of `use` over it too, and
-- the function then runs as it is.
manage_suffices :
    {W A : Type 0} (param : String) (resource : Option String) (f : Edge W A) (s : Scope) (w : W)
    → require_grant "manage" param resource (pure tt) s w ≡ (done tt, w)
    → require_grant "use" param resource f s w ≡ f s w
unfolding require_grant
manage_suffices param resource f s w passes = elim (Option-cases s.auth_ctx) [
  | inl missing ↦ absurd (ground arith)
  | inr (ctx, here) ↦ ground (arith, check-manage param (or_text resource "") ctx)
]

-- Owner and admin pass any requirement over any resource, whatever grants they hold.
owner_passes :
    {W A : Type 0} (level param resource : String) (f : Edge W A) (s : Scope) (w : W)
    (ctx : AuthContext)
    → s.auth_ctx ≡ some ctx
    → is_empty resource ≡ false
    → (ctx.role ≡ "owner") ⊎ (ctx.role ≡ "admin")
    → require_grant level param (some resource) f s w ≡ f s w
unfolding require_grant
owner_passes level param resource f s w ctx here asked role =
    ground (arith, check-owner level param resource ctx asked role)

-- A guarded call runs as it is, or an HTTP refusal stands in its place and nothing has happened.
pub guarded_cases :
    {W A : Type 0} (roles : List String) (f : Edge W A) (s : Scope) (w : W)
    → (account_scoped (require_role roles f) s w ≡ f s w)
      ⊎ ((e : HttpException) × (account_scoped (require_role roles f) s w
            ≡ (raised (Error.http e), w)))
unfolding account_scoped require_role
guarded_cases roles f s w = elim (Option-cases s.auth_ctx) [
  | inl missing ↦ inr (record { status_code = 401; detail = "Not authenticated" }, ground arith)
  | inr (ctx, here) ↦ elim (Bool-cases (is_empty ctx.account_id)) [
    | inl empty ↦
        inr (record { status_code = 400; detail = "No active account selected" }, ground arith)
    | inr account ↦ elim (Bool-cases (has_role ctx roles)) [
      | inl role ↦ inl (ground arith)
      | inr lacks ↦
          inr (record { status_code = 403; detail = "Insufficient permission" }, ground arith)
    ]
  ]
]
