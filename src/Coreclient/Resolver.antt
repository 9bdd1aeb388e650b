-- ===== src/Coreclient/Resolver.antt =====
-- app/coreclient/resolver.py: who the user is and what they may do, as the core says.
pub mod Laws
use dop_api.Base.{
  String, Bool, true, false, List, [], ◌∷◌, ◌==◌, string_eq, is_empty, is_in, or_else,
  if◌then◌else◌,
}
use dop_api.Platform.Context.{Principal}
use dop_api.Platform.Errors.{
  Error, StatusCode, unimplemented, permission_denied, not_found, Result, done, raised, refuse,
  as_http,
}
use dop_api.Platform.Edge.{Edge, ◌>>=◌, ◌>>◌, pure, refusing}
use dop_api.Platform.Auth.{Identity}
use dop_api.Coreclient.Convert.{role_name}
use dop_api.Coreclient.Client.{Outside, Metadata, nobody, metadata_for, idempotency_key}
use dop_api.Coreclient.Identity.{Account, Membership, ResolverStub}

-- `_TOLERABLE`.
abbrev pub is_tolerable : StatusCode → Bool
is_tolerable unimplemented = true
is_tolerable permission_denied = true
is_tolerable not_found = true
is_tolerable _ = false

-- `except AioRpcError as exc: raise as_http(exc) from exc`.
abbrev pub translate : Error → Error
translate (Error.rpc exc) = Error.http (as_http exc)
translate e = e

abbrev pub translated : {W A : Type 0} → Result A × W → Result A × W
translated (done a, w) = (done a, w)
translated (raised e, w) = (raised (translate e), w)

abbrev pub first_of : List String → String
first_of [] = ""
first_of (s ∷ ss) = s

-- The role of the first membership of the user.
unfoldable pub role_of : String → List Membership → String
role_of user_id [] = ""
role_of user_id (m ∷ ms) = if m.user_id == user_id then role_name m.role else role_of user_id ms

abbrev pub account_ids : List Account → List String
account_ids [] = []
account_ids (a ∷ as') = a.id ∷ account_ids as'

-- `CoreResolver._grants`.
abbrev pub no_grants : List (String × String)
no_grants = []

module _ {W : Type 0} (out : Outside W) (stub : ResolverStub W) where
  -- `_ensure_user`.
  unfoldable pub ensure_user : Principal → String → Edge W String
  ensure_user principal raw_token = do
    key ← idempotency_key out
    md ← metadata_for out (record nobody { raw_token = raw_token })
    user ← λ s w. translated (
        stub.ensure_user md
          (record {
            subject = principal.subject;
            email = principal.email;
            email_verified = principal.email_verified;
            name = principal.name;
            avatar_url = principal.avatar_url;
            provider = first_of principal.providers;
            idempotency_key = key;
          })
          w)
    pure user.id

  -- `_assert_membership`.
  unfoldable pub assert_membership : String → String → Metadata → Edge W (Unit {0})
  assert_membership user_id account_id md = do
    accounts ← λ s w. translated (stub.list_accounts md user_id w)
    refusing (
        if is_in account_id (account_ids accounts)
        then done tt
        else refuse 403 "No membership in the requested account")

  -- A failed listing of the members: no role, if the failure is tolerable.
  abbrev pub tolerate : Error → Result String
  tolerate (Error.rpc exc) =
      if is_tolerable exc.code then done "" else raised (Error.http (as_http exc))
  tolerate e = raised e

  -- `_role_in_account`.
  unfoldable pub role_in_account : String → String → Metadata → Edge W String
  unfolding role_of
  role_in_account user_id account_id md s w =
      let (answer, w') = stub.list_memberships md account_id w in
      elim answer [ done ms ↦ (done (role_of user_id ms), w') | raised e ↦ (tolerate e, w') ]

  -- `CoreResolver.__call__`.
  unfoldable pub resolve : Principal → String → String → Edge W Identity
  resolve principal account_id raw_token = do
    user_id ← ensure_user principal raw_token
    let alone = pure (record { user_id = user_id; role = ""; grants = no_grants })
    let inside = do
      md ← metadata_for out (record nobody {
        user_id = user_id;
        account_id = account_id;
        actor_name = or_else principal.name principal.email;
      })
      assert_membership user_id account_id md
      role ← role_in_account user_id account_id md
      pure (record { user_id = user_id; role = role; grants = no_grants })
    if is_empty account_id then alone else inside
