-- ===== src/Tests/Identity.antt =====
-- The theorems about identity at concrete inputs.
use dop_api.Base.{
  suc, refl, ◌≡◌, ℕ, String, none, some, ◌==◌, nat_eq, string_eq, arith, eq_iff, if◌then◌else◌,
}
use dop_api.Platform.Errors.{Error, raised, done}
use dop_api.Platform.Admin.{AdminWorld}
use dop_api.Coreclient.Client.{
  Rpc, Metadata, call, metadata, metadata_for, request_id, assertion_entry, idempotency,
}
use dop_api.Coreclient.Identity.{Account, Membership}
use dop_api.Usecases.Timestamp.{Timestamp}
use dop_api.Usecases.Identity.Models.{AcceptedInvite}
use dop_api.Usecases.Identity.Messages.{IdentityStub, SendEmailVerificationRequest}
use dop_api.Usecases.Identity.{accept_invite}
use dop_api.Usecases.Identity.Laws.{accept_invite-IsJoined, IsJoined}
use dop_api.Usecases.Identity.Verification.{send_email_verification}
use dop_api.Usecases.Identity.Verification.Laws.{send_email_verification_own}
use dop_api.Tests.World.{outside, context_of, scope_of, unused, answering}

abbrev membership : Membership
membership = record { id = "m1"; account_id = "acme"; user_id = "u1"; role = 3 }

abbrev acme : Account
acme = record { id = "acme"; kind = 2; handle = "acme"; display_name = "Acme"; plan_key = "" }

-- A method that answers one address alone.
abbrev strict : Rpc ℕ SendEmailVerificationRequest Unit
strict md q n =
    if q.email == "ana@dop.dev" then (done tt, suc n) else (raised (Error.failure "strict"), n)

abbrev stub_with : Rpc ℕ SendEmailVerificationRequest Unit → IdentityStub ℕ
stub_with send = record {
  get_user = unused;
  update_profile = unused;
  get_onboarding = unused;
  record_onboarding_step = unused;
  complete_onboarding = unused;
  check_handle = unused;
  update_personal_account = unused;
  set_plan = unused;
  list_accounts = unused;
  create_account = unused;
  list_memberships = unused;
  create_invite = unused;
  list_invites = unused;
  get_invite = unused;
  accept_invite = answering membership;
  get_account = answering acme;
  revoke_invite = unused;
  update_membership = unused;
  remove_membership = answering tt;
  send_email_verification = send;
}

abbrev iso : Timestamp → String
iso t = ""

abbrev same : String → String
same s = s

abbrev joined : AcceptedInvite
joined = record { account_id = "acme"; account_name = "Acme"; role = "developer" }

accept_invite-IsJoined_example :
    IsJoined outside (stub_with unused) "i1" (context_of "viewer") (scope_of "viewer") joined
unfolding accept_invite call metadata metadata_for request_id assertion_entry idempotency
accept_invite-IsJoined_example =
    accept_invite-IsJoined outside (stub_with unused) iso same "i1" "" (scope_of "viewer") 0
      (context_of "viewer") refl joined 3 refl

abbrev admin : AdminWorld ℕ
admin = record {
  instance_of =
      λ n. record { project = "dop"; emulator = "localhost:9099"; token = ""; expires_at = 0 };
  store = λ a n. n;
  clock = λ n. n;
  request_token = λ n. (none, n);
  post_link = λ q n.
      (some (record { status_code = 200; text = ""; oob_link = some "https://link" }), suc n);
  decimal = λ n. "";
  urlsplit = λ u. record {
    scheme = "https";
    netloc = "link";
    hostname = some "link";
    path = "";
    query = "";
    fragment = "";
  };
  urlunsplit = λ u. "";
}

strict_alike :
    (md : Metadata) (q : SendEmailVerificationRequest) (n : ℕ)
    → q.email ≡ "ana@dop.dev"
    → q.subject ≡ "sub"
    → answering tt md q n ≡ strict md q n
strict_alike md q n own subject = ground (arith, eq_iff q.email "ana@dop.dev")

send_email_verification_own_example :
    send_email_verification outside (stub_with (answering tt)) admin "" (scope_of "viewer") 0
    ≡ send_email_verification outside (stub_with strict) admin "" (scope_of "viewer") 0
send_email_verification_own_example =
    send_email_verification_own outside (stub_with (answering tt)) admin "" (scope_of "viewer") 0
      (context_of "viewer") refl (stub_with strict) strict_alike
