-- ===== src/Grpcapi/Identity/Messages.antt =====
-- app/grpcapi/gen/dop/bff/v1/identity_pb2.pyi: the messages of the gRPC port that differ from the use
-- case's models: a role, a kind and a status are numbers, and a date that is not set is absent.
use dop_api.Base.{ℕ, String, Bool, Option, List, nat_eq, string_eq}
use dop_api.Usecases.Timestamp.{Timestamp}
use dop_api.Usecases.Identity.Models.{GrantSpec}

-- `Me`.
pub record BffMe : Type 0 where
  pub subject : String
  pub user_id : String
  pub email : String
  pub name : String
  pub providers : List String
  pub account_id : String
  pub role : ℕ
  pub avatar_url : String
  pub locale : String
  pub timezone : String
  pub phone : String
  pub phone_verified : Bool
  pub email_verified : Bool
  pub birth_date : String
  pub onboarded : Bool
  pub phone_whatsapp : Bool

-- `AccountSummary`.
pub record BffAccount : Type 0 where
  pub id : String
  pub kind : ℕ
  pub handle : String
  pub display_name : String
  pub role : ℕ
  pub plan_key : String

-- `MemberSummary`.
pub record BffMember : Type 0 where
  pub id : String
  pub user_id : String
  pub role : ℕ

-- `InviteSummary`.
pub record BffInvite : Type 0 where
  pub id : String
  pub email : String
  pub role : ℕ
  pub status : ℕ
  pub expires_at : Option Timestamp

-- `InvitePreview`.
pub record BffPreview : Type 0 where
  pub id : String
  pub account_name : String
  pub role : ℕ
  pub status : ℕ
  pub expires_at : Option Timestamp
  pub usable : Bool

-- `AcceptInviteResponse`.
pub record BffAccepted : Type 0 where
  pub account : BffAccount
  pub role : ℕ

-- `CreateInviteRequest`.
pub record BffCreateInvite : Type 0 where
  pub email : String
  pub role : ℕ
  pub grants : List GrantSpec
  pub idempotency_key : String

-- `CreateAccountRequest`.
pub record BffCreateAccount : Type 0 where
  pub handle : String
  pub display_name : String
  pub legal_id : String
  pub idempotency_key : String

-- `UpdateMemberRequest`.
pub record BffUpdateMember : Type 0 where
  pub membership_id : String
  pub role : ℕ
