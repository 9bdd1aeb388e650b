-- ===== src/Routers/Identity.antt =====
-- app/routers/identity.py: each route is its use case. No route here takes a key for the
-- idempotency of a write: what its use case makes of none is what counts.
use dop_api.Base.{String, nat_eq, string_eq, Bool, List}
use dop_api.Platform.Edge.{Edge}
use dop_api.Coreclient.Client.{Outside}
use dop_api.Usecases.Identity.Models.{
  MeResponse, ProfilePatch, OnboardingState, StepUpdate, AccountSummary, AccountPatch, PlanChoice,
  HandleAvailability, NewAccount, MemberSummary, NewInvite, InviteSummary, InvitePreview,
  AcceptedInvite, MemberRole, VerificationRequested,
}
use dop_api.Usecases.Identity.Messages.{IdentityStub}
use dop_api.Usecases.Timestamp.{Timestamp}
use dop_api.Platform.Admin.{AdminWorld}
use dop_api.Usecases.Identity.Profile
use dop_api.Usecases.Identity
use dop_api.Usecases.Identity.Verification

module _ {W : Type 0} (out : Outside W) (stub : IdentityStub W) where
  unfoldable pub me : Edge W MeResponse
  me = Profile.me out stub

  unfoldable pub update_profile : ProfilePatch → Edge W MeResponse
  update_profile body = Profile.update_profile out stub body

  unfoldable pub onboarding : Edge W OnboardingState
  onboarding = Profile.onboarding out stub

  unfoldable pub record_step : String → StepUpdate → Edge W OnboardingState
  record_step step body = Profile.record_step out stub step body

  unfoldable pub complete_onboarding : Edge W OnboardingState
  complete_onboarding = Profile.complete_onboarding out stub

module _ {W : Type 0} (out : Outside W) (stub : IdentityStub W) (isoformat : Timestamp → String)
    (lower : String → String) where
  unfoldable pub handle_availability : String → Edge W HandleAvailability
  handle_availability handle = Identity.handle_availability out stub isoformat lower handle

  unfoldable pub update_personal_account : AccountPatch → Edge W AccountSummary
  update_personal_account body = Identity.update_personal_account out stub isoformat lower body

  unfoldable pub set_plan : PlanChoice → Edge W AccountSummary
  set_plan body = Identity.set_plan out stub isoformat lower body

  unfoldable pub list_accounts : Edge W (List AccountSummary)
  list_accounts = Identity.list_accounts out stub isoformat lower

  unfoldable pub create_account : NewAccount → Edge W AccountSummary
  create_account body = Identity.create_account out stub isoformat lower body ""

  unfoldable pub list_members : Edge W (List MemberSummary)
  list_members = Identity.list_members out stub isoformat lower

  unfoldable pub create_invite : NewInvite → Edge W InviteSummary
  create_invite body = Identity.create_invite out stub isoformat lower body ""

  unfoldable pub list_invites : Edge W (List InviteSummary)
  list_invites = Identity.list_invites out stub isoformat lower

  unfoldable pub get_invite : String → Edge W InvitePreview
  get_invite invite_id = Identity.get_invite out stub isoformat lower invite_id

  unfoldable pub accept_invite : String → Edge W AcceptedInvite
  accept_invite invite_id = Identity.accept_invite out stub isoformat lower invite_id ""

  unfoldable pub revoke_invite : String → Edge W InviteSummary
  revoke_invite invite_id = Identity.revoke_invite out stub isoformat lower invite_id

  unfoldable pub update_member : String → MemberRole → Edge W MemberSummary
  update_member membership_id body =
      Identity.update_member out stub isoformat lower membership_id body

  unfoldable pub remove_member : String → Edge W Bool
  remove_member membership_id = Identity.remove_member out stub isoformat lower membership_id

module _ {W : Type 0} (out : Outside W) (stub : IdentityStub W) (admin : AdminWorld W)
    (auth_domain : String) where
  unfoldable pub send_email_verification : Edge W VerificationRequested
  send_email_verification = Verification.send_email_verification out stub admin auth_domain
