-- ===== src/Platform/Context.antt =====
-- app/platform/context.py: who is calling, in which account, with which permissions.
use dop_api.Base.{
  String, Bool, Option, none, some, List, Dict, ◌||◌, ◌==◌, string_eq, is_in, get, get_default,
  if◌then◌else◌,
}

-- The normalized result of verifying a token.
pub record Principal : Type 0 where
  pub subject : String
  pub email : String
  pub email_verified : Bool
  pub name : String
  pub avatar_url : String
  pub providers : List String
  pub session_id : String

pub record AuthContext : Type 0 where
  pub principal : Principal
  pub raw_token : String
  pub user_id : String
  pub account_id : String
  pub role : String
  pub grants : Dict String

abbrev pub has_role : AuthContext → List String → Bool
has_role ctx roles = is_in ctx.role roles

-- Owner and admin have an implicit `manage`.
unfoldable pub grant_level : AuthContext → String → Option String
grant_level ctx resource_id =
    if ctx.role == "owner" || ctx.role == "admin" then some "manage" else get ctx.grants resource_id

-- The two context variables of a call: `request_ctx` and `auth_ctx`.
pub record Scope : Type 0 where
  pub request_ctx : Dict String
  pub auth_ctx : Option AuthContext

abbrev pub current_request_id : Scope → String
current_request_id s = get_default s.request_ctx "request_id" ""

unfoldable pub current_account_id : Scope → String
current_account_id s = elim s.auth_ctx [ none ↦ "" | some ctx ↦ ctx.account_id ]
