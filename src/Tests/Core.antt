-- ===== src/Tests/Core.antt =====
-- The theorems about calls of the core, at concrete inputs.
use dop_api.Base.{refl, ◌≡◌, ℕ, String, true, false, some, [], ◌∷◌, nat_eq, string_eq, get, ◌<>◌}
use dop_api.Base.Decimal.{to_decimal}
use dop_api.Platform.Auth.{Identity}
use dop_api.Coreclient.Callauth.{Claim, expiry, sign}
use dop_api.Coreclient.Callauth.Laws.{sign-injective}
use dop_api.Coreclient.Client.{Metadata, caller_of, metadata_for, request_id, assertion_entry}
use dop_api.Coreclient.Client.Laws.{metadata_for_carries}
use dop_api.Coreclient.Identity.{ResolverStub}
use dop_api.Coreclient.Resolver.{ensure_user, assert_membership, role_in_account, role_of, resolve}
use dop_api.Coreclient.Resolver.Laws.{IsListed, IsReported, resolve-IsListed}
use dop_api.Tests.Encoding.{encode, encode-injective, encode-dotless}
use dop_api.Tests.World.{outside, ana, context_of, scope_of, answering}

abbrev claim : Claim
claim = record {
  caller = "bff";
  actor_id = "u1";
  actor_kind = "user";
  account_id = "acc";
  session_id = "s1";
}

abbrev mac : String → String → String
mac key s = "mac"

abbrev assertion : String
assertion = encode "bff|u1|user|acc|s1|120" <> "." <> "mac"

sign-injective_example : (claim ≡ claim) × (expiry 7 ≡ expiry 9)
unfolding sign to_decimal
sign-injective_example =
    sign-injective mac encode encode-injective encode-dotless "k" "k" claim claim 7 9 assertion refl
      refl

abbrev admin_metadata : Metadata
admin_metadata =
    ("x-request-id", "r1")
    ∷ ("authorization", "Bearer tok")
    ∷ ("x-account-id", "acc")
    ∷ ("x-actor-id", "u1")
    ∷ ("x-actor-kind", "user")
    ∷ ("x-actor-name", "Ana")
    ∷ ("x-session-id", "s1")
    ∷ []

metadata_for_carries_example :
    (get admin_metadata "authorization" ≡ some "Bearer tok")
    × (get admin_metadata "x-account-id" ≡ some "acc")
    × (get admin_metadata "x-actor-id" ≡ some "u1")
    × (get admin_metadata "x-actor-kind" ≡ some "user")
    × (get admin_metadata "x-session-id" ≡ some "s1")
unfolding metadata_for request_id assertion_entry
metadata_for_carries_example =
    metadata_for_carries outside (caller_of (some (context_of "admin"))) (scope_of "admin") 0 0
      admin_metadata refl refl

abbrev stub : ResolverStub ℕ
stub = record {
  ensure_user = answering (record {
    id = "u1";
    name = "Ana";
    avatar_url = "";
    locale = "";
    timezone = "";
    phone = "";
    phone_verified = false;
    email_verified = true;
    birth_date = "";
    onboarded = true;
    phone_whatsapp = false;
  });
  list_accounts =
      answering
        (record { id = "acc"; kind = 2; handle = "dop"; display_name = "DOP"; plan_key = "" } ∷ []);
  list_memberships =
      answering (record { id = "m1"; account_id = "acc"; user_id = "u1"; role = 2 } ∷ []);
}

abbrev admin : Identity
admin = record { user_id = "u1"; role = "admin"; grants = [] }

resolve-IsListed_example :
    IsListed outside stub "u1" "acc"
    × IsReported outside stub "u1" "acc" "admin"
    × (admin.grants ≡ [])
unfolding resolve ensure_user assert_membership role_in_account role_of metadata_for request_id
    assertion_entry
resolve-IsListed_example =
    resolve-IsListed outside stub ana "acc" "tok" (scope_of "admin") 0 4 admin refl refl
