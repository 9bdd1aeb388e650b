-- ===== src/Coreclient/Identity.antt =====
-- app/coreclient/gen/dop/v1/identity_pb2.pyi: the core's identity messages, with the fields that
-- the edge reads or writes; a reference such as `UserRef` stands as its id.
use dop_api.Base.{ℕ, String, Bool, List}
use dop_api.Coreclient.Client.{Rpc}

-- `User`.
pub record User : Type 0 where
  pub id : String
  pub name : String
  pub avatar_url : String
  pub locale : String
  pub timezone : String
  pub phone : String
  pub phone_verified : Bool
  pub email_verified : Bool
  pub birth_date : String
  pub onboarded : Bool
  pub phone_whatsapp : Bool

-- `Account`.
pub record Account : Type 0 where
  pub id : String
  pub kind : ℕ
  pub handle : String
  pub display_name : String
  pub plan_key : String

-- `Membership`.
pub record Membership : Type 0 where
  pub id : String
  pub account_id : String
  pub user_id : String
  pub role : ℕ

-- `EnsureUserRequest`.
pub record EnsureUserRequest : Type 0 where
  pub subject : String
  pub email : String
  pub email_verified : Bool
  pub name : String
  pub avatar_url : String
  pub provider : String
  pub idempotency_key : String

-- The three methods of the identity service that the resolver calls.
pub record ResolverStub (W : Type 0) : Type 0 where
  pub ensure_user : Rpc W EnsureUserRequest User
  pub list_accounts : Rpc W String (List Account)
  pub list_memberships : Rpc W String (List Membership)
