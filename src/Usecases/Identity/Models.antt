-- ===== src/Usecases/Identity/Models.antt =====
-- app/usecases/identity.py: the edge's models.
use dop_api.Base.{ℕ, String, Bool, Option, List}

pub record MeResponse : Type 0 where
  pub subject : String
  pub user_id : String
  pub email : String
  pub name : String
  pub providers : List String
  pub account_id : String
  pub role : String
  pub avatar_url : String
  pub locale : String
  pub timezone : String
  pub phone : String
  pub phone_verified : Bool
  pub email_verified : Bool
  pub birth_date : String
  pub onboarded : Bool
  pub phone_whatsapp : Bool

pub record AccountSummary : Type 0 where
  pub id : String
  pub handle : String
  pub display_name : String
  pub kind : String
  pub role : String
  pub plan_key : String

pub record ProfilePatch : Type 0 where
  pub name : Option String
  pub birth_date : Option String
  pub locale : Option String
  pub timezone : Option String
  pub phone : Option String
  pub phone_whatsapp : Option Bool

pub record OnboardingStep : Type 0 where
  pub step : String
  pub status : String

pub record OnboardingState : Type 0 where
  pub steps : List OnboardingStep
  pub current : String
  pub complete : Bool
  pub email_verified : Bool
  pub phone : String
  pub phone_verified : Bool
  pub code_connections : ℕ
  pub task_connections : ℕ
  pub plan_key : String
  pub personal_account_id : String

pub record StepUpdate : Type 0 where
  pub status : String

pub record HandleAvailability : Type 0 where
  pub handle : String
  pub available : Bool
  pub suggestion : String

pub record AccountPatch : Type 0 where
  pub handle : String
  pub display_name : String

pub record PlanChoice : Type 0 where
  pub plan_key : String

pub record VerificationRequested : Type 0 where
  pub email : String

pub record NewAccount : Type 0 where
  pub handle : String
  pub display_name : String
  pub legal_id : String

pub record MemberSummary : Type 0 where
  pub id : String
  pub user_id : String
  pub role : String

pub record GrantSpec : Type 0 where
  pub resource_id : String
  pub level : String

pub record NewInvite : Type 0 where
  pub email : String
  pub role : String
  pub grants : List GrantSpec

pub record InviteSummary : Type 0 where
  pub id : String
  pub email : String
  pub role : String
  pub status : String
  pub expires_at : Option String

pub record InvitePreview : Type 0 where
  pub id : String
  pub account_name : String
  pub role : String
  pub status : String
  pub expires_at : Option String
  pub usable : Bool

pub record AcceptedInvite : Type 0 where
  pub account_id : String
  pub account_name : String
  pub role : String

pub record MemberRole : Type 0 where
  pub role : String
