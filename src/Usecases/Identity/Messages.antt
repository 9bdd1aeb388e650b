-- ===== src/Usecases/Identity/Messages.antt =====
-- app/coreclient/gen/dop/v1/identity_pb2.pyi: the messages of the core's identity service that the
-- use cases read and write. A reference stands as its id.
use dop_api.Base.{ℕ, String, Bool, Option, List}
use dop_api.Coreclient.Client.{Rpc}
use dop_api.Coreclient.Identity.{User, Account, Membership}
use dop_api.Usecases.Timestamp.{Timestamp}
use dop_api.Usecases.Identity.Models.{OnboardingStep, GrantSpec}

-- `OnboardingState`.
pub record PbOnboardingState : Type 0 where
  pub steps : List OnboardingStep
  pub current : String
  pub complete : Bool
  pub email_verified : Bool
  pub phone : String
  pub phone_verified : Bool
  pub code_connections : ℕ
  pub task_connections : ℕ
  pub plan_key : String
  pub personal_account_id : String

-- `UpdateProfileRequest`, whose fields are `optional`.
pub record UpdateProfileRequest : Type 0 where
  pub name : Option String
  pub birth_date : Option String
  pub locale : Option String
  pub timezone : Option String
  pub phone : Option String
  pub phone_whatsapp : Option Bool

pub record RecordOnboardingStepRequest : Type 0 where
  pub step : String
  pub status : String

-- `HandleAvailability`.
pub record PbHandle : Type 0 where
  pub handle : String
  pub available : Bool
  pub suggestion : String

pub record UpdatePersonalAccountRequest : Type 0 where
  pub handle : String
  pub display_name : String

-- An item of `ListAccountsResponse`: the account with the caller's role in it.
pub record PbAccountItem : Type 0 where
  pub account : Account
  pub role : ℕ

pub record CreateAccountRequest : Type 0 where
  pub kind : ℕ
  pub handle : String
  pub display_name : String
  pub legal_id : String
  pub idempotency_key : String

-- `Invite`.
pub record PbInvite : Type 0 where
  pub id : String
  pub email : String
  pub role : ℕ
  pub status : ℕ
  pub expires_at : Timestamp

-- `GetInviteResponse`.
pub record PbPreview : Type 0 where
  pub id : String
  pub account_name : String
  pub role : ℕ
  pub status : ℕ
  pub expires_at : Timestamp
  pub usable : Bool

pub record CreateInviteRequest : Type 0 where
  pub email : String
  pub role : ℕ
  pub grants : List GrantSpec
  pub idempotency_key : String

pub record AcceptInviteRequest : Type 0 where
  pub invite_id : String
  pub idempotency_key : String

pub record UpdateMembershipRequest : Type 0 where
  pub membership_id : String
  pub role : ℕ

pub record SendEmailVerificationRequest : Type 0 where
  pub email : String
  pub subject : String
  pub link : String
  pub display_name : String

pub record IdentityStub (W : Type 0) : Type 0 where
  pub get_user : Rpc W String User
  pub update_profile : Rpc W UpdateProfileRequest User
  pub get_onboarding : Rpc W (Unit {0}) PbOnboardingState
  pub record_onboarding_step : Rpc W RecordOnboardingStepRequest PbOnboardingState
  pub complete_onboarding : Rpc W (Unit {0}) PbOnboardingState
  pub check_handle : Rpc W String PbHandle
  pub update_personal_account : Rpc W UpdatePersonalAccountRequest Account
  pub set_plan : Rpc W String Account
  pub list_accounts : Rpc W String (List PbAccountItem)
  pub create_account : Rpc W CreateAccountRequest Account
  pub list_memberships : Rpc W String (List Membership)
  pub create_invite : Rpc W CreateInviteRequest PbInvite
  pub list_invites : Rpc W (Unit {0}) (List PbInvite)
  pub get_invite : Rpc W String PbPreview
  pub accept_invite : Rpc W AcceptInviteRequest Membership
  pub get_account : Rpc W String Account
  pub revoke_invite : Rpc W String PbInvite
  pub update_membership : Rpc W UpdateMembershipRequest Membership
  pub remove_membership : Rpc W String (Unit {0})
  pub send_email_verification : Rpc W SendEmailVerificationRequest (Unit {0})
