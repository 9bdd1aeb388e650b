-- ===== src/Grpcapi/Identity.antt =====
-- app/grpcapi/identity.py: identity on the gRPC port. The reading of a date that was written with
-- `isoformat` is a parameter. Messages with the fields of the use case's models stand as those.
pub mod Messages
pub mod Laws
use dop_api.Base.{String, none, List, map, nat_eq, string_eq, is_empty, if◌then◌else◌}
use dop_api.Platform.Edge.{refusing, Edge, ◌>>=◌, pure}
use dop_api.Coreclient.Client.{Outside}
use dop_api.Usecases.Forms.{step_update, plan_choice, new_account, valid_invite}
use dop_api.Usecases.Timestamp.{Timestamp}
use dop_api.Usecases.Identity.Models.{
  MeResponse, AccountSummary, ProfilePatch, OnboardingState, StepUpdate, HandleAvailability,
  AccountPatch, PlanChoice, MemberSummary, NewInvite, InviteSummary, InvitePreview, AcceptedInvite,
}
use dop_api.Usecases.Identity.Messages.{IdentityStub}
use dop_api.Usecases.Identity.Profile.{
  me, update_profile, onboarding, record_step, complete_onboarding,
}
use dop_api.Usecases.Identity.{
  handle_availability, update_personal_account, set_plan, list_accounts, create_account,
  list_members, create_invite, list_invites, get_invite, accept_invite, revoke_invite,
  update_member,
}
use dop_api.Grpcapi.Convert.{role_enum, role_name, kind_enum, status_enum}
use dop_api.Grpcapi.SecondFactor.{time_of}
use Messages.{
  BffMe, BffAccount, BffMember, BffInvite, BffPreview, BffAccepted, BffCreateInvite,
  BffCreateAccount, BffUpdateMember,
}

-- `_me`.
unfoldable pub me_message : MeResponse → BffMe
me_message r = record {
  subject = r.subject;
  user_id = r.user_id;
  email = r.email;
  name = r.name;
  providers = r.providers;
  account_id = r.account_id;
  role = role_enum r.role;
  avatar_url = r.avatar_url;
  locale = r.locale;
  timezone = r.timezone;
  phone = r.phone;
  phone_verified = r.phone_verified;
  email_verified = r.email_verified;
  birth_date = r.birth_date;
  onboarded = r.onboarded;
  phone_whatsapp = r.phone_whatsapp;
}

-- `_account`.
unfoldable pub account_message : AccountSummary → BffAccount
account_message a = record {
  id = a.id;
  kind = kind_enum a.kind;
  handle = a.handle;
  display_name = a.display_name;
  role = role_enum a.role;
  plan_key = a.plan_key;
}

pub member_message : MemberSummary → BffMember
member_message m = record { id = m.id; user_id = m.user_id; role = role_enum m.role }

-- `AcceptInvite`'s answer: of the account, its id and its name.
abbrev pub accepted_message : AcceptedInvite → BffAccepted
accepted_message r = record {
  account = record {
    id = r.account_id;
    kind = 0;
    handle = "";
    display_name = r.account_name;
    role = 0;
    plan_key = "";
  };
  role = role_enum r.role;
}

-- `CreateInvite`'s answer, which leaves the expiry out.
unfoldable pub created_invite_message : InviteSummary → BffInvite
created_invite_message r = record {
  id = r.id;
  email = r.email;
  role = role_enum r.role;
  status = status_enum r.status;
  expires_at = none;
}

-- The model of a request to invite: a role that is not given is the model's default.
pub new_invite : BffCreateInvite → NewInvite
new_invite request =
    let name = role_name request.role in
    record {
      email = request.email;
      role = if is_empty name then "developer" else name;
      grants = request.grants;
    }

module _ (fromisoformat : String → Timestamp) where
  -- `_invite`.
  unfoldable pub invite_message : InviteSummary → BffInvite
  invite_message i = record {
    id = i.id;
    email = i.email;
    role = role_enum i.role;
    status = status_enum i.status;
    expires_at = time_of fromisoformat i.expires_at;
  }

  abbrev pub preview_message : InvitePreview → BffPreview
  preview_message p = record {
    id = p.id;
    account_name = p.account_name;
    role = role_enum p.role;
    status = status_enum p.status;
    expires_at = time_of fromisoformat p.expires_at;
    usable = p.usable;
  }

module _ {W : Type 0} (out : Outside W) (stub : IdentityStub W) (isoformat : Timestamp → String)
    (lower : String → String) (fromisoformat : String → Timestamp) where
  unfoldable pub get_me_rpc : Edge W BffMe
  get_me_rpc = do r ← me out stub; pure (me_message r)

  unfoldable pub update_profile_rpc : ProfilePatch → Edge W BffMe
  update_profile_rpc body = do r ← update_profile out stub body; pure (me_message r)

  unfoldable pub get_onboarding_rpc : Edge W OnboardingState
  get_onboarding_rpc = onboarding out stub

  unfoldable pub record_step_rpc : String → StepUpdate → Edge W OnboardingState
  record_step_rpc step request = do
    body ← refusing (step_update request)
    record_step out stub step body

  unfoldable pub complete_onboarding_rpc : Edge W OnboardingState
  complete_onboarding_rpc = complete_onboarding out stub

  unfoldable pub check_handle_rpc : String → Edge W HandleAvailability
  check_handle_rpc handle = handle_availability out stub isoformat lower handle

  unfoldable pub update_personal_account_rpc : AccountPatch → Edge W BffAccount
  update_personal_account_rpc body = do
    a ← update_personal_account out stub isoformat lower body
    pure (account_message a)

  unfoldable pub set_plan_rpc : PlanChoice → Edge W BffAccount
  set_plan_rpc request = do
    body ← refusing (plan_choice request)
    a ← set_plan out stub isoformat lower body
    pure (account_message a)

  unfoldable pub list_accounts_rpc : Edge W (List BffAccount)
  list_accounts_rpc = do
    items ← list_accounts out stub isoformat lower
    pure (map account_message items)

  unfoldable pub list_members_rpc : Edge W (List BffMember)
  list_members_rpc = do ms ← list_members out stub isoformat lower; pure (map member_message ms)

  unfoldable pub list_invites_rpc : Edge W (List BffInvite)
  list_invites_rpc = do
    is ← list_invites out stub isoformat lower
    pure (map (invite_message fromisoformat) is)

  unfoldable pub get_invite_rpc : String → Edge W BffPreview
  get_invite_rpc id = do
    p ← get_invite out stub isoformat lower id
    pure (preview_message fromisoformat p)

  -- No key: the request has none.
  unfoldable pub accept_invite_rpc : String → Edge W BffAccepted
  accept_invite_rpc id = do
    r ← accept_invite out stub isoformat lower id ""
    pure (accepted_message r)

  unfoldable pub revoke_invite_rpc : String → Edge W BffInvite
  revoke_invite_rpc id = do
    i ← revoke_invite out stub isoformat lower id
    pure (invite_message fromisoformat i)

  unfoldable pub update_member_rpc : BffUpdateMember → Edge W BffMember
  update_member_rpc request = do
    m ←
        update_member out stub isoformat lower request.membership_id
          (record { role = role_name request.role })
    pure (member_message m)

  unfoldable pub create_account_rpc : BffCreateAccount → Edge W BffAccount
  create_account_rpc request = do
    body ← refusing (
        new_account (record {
          handle = request.handle;
          display_name = request.display_name;
          legal_id = request.legal_id;
        }))
    a ← create_account out stub isoformat lower body request.idempotency_key
    pure (account_message a)

  unfoldable pub create_invite_rpc : BffCreateInvite → Edge W BffInvite
  create_invite_rpc request = do
    body ← refusing (valid_invite (new_invite request))
    i ← create_invite out stub isoformat lower body request.idempotency_key
    pure (created_invite_message i)
