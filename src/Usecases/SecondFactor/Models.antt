-- ===== src/Usecases/SecondFactor/Models.antt =====
-- app/usecases/secondfactor.py: the edge's models, with the messages of
-- app/coreclient/gen/dop/v1/secondfactor_pb2.pyi that they are made from.
use dop_api.Base.{ℕ, String, Bool, Option, List, nat_eq, string_eq}
use dop_api.Coreclient.Client.{Rpc}
use dop_api.Usecases.Timestamp.{Timestamp}

pub record FactorSummary : Type 0 where
  pub id : String
  pub kind : String
  pub status : String
  pub label : String
  pub masked_destination : String
  pub confirmed_at : Option String
  pub last_used_at : Option String

pub record NewFactor : Type 0 where
  pub kind : String
  pub label : String
  pub destination : String

pub record EnrollResponse : Type 0 where
  pub factor : FactorSummary
  pub challenge_id : String
  pub secret : String
  pub uri : String

pub record ConfirmFactor : Type 0 where
  pub challenge_id : String
  pub code : String

pub record ConfirmResponse : Type 0 where
  pub factor : Option FactorSummary
  pub recovery_codes : List String

pub record ChallengeRequest : Type 0 where
  pub factor_id : String

pub record ChallengeResponse : Type 0 where
  pub challenge_id : String
  pub kind : String
  pub masked_destination : String
  pub expires_at : Option String

pub record VerifyRequest : Type 0 where
  pub challenge_id : String
  pub code : String

pub record RecoveryRequest : Type 0 where
  pub code : String

pub record StepUpResponse : Type 0 where
  pub method : String
  pub recovery : Bool
  pub expires_at : Option String

pub record SecondFactorState : Type 0 where
  pub required : Bool
  pub enrolled : Bool
  pub stepped_up : Bool
  pub needs_setup : Bool
  pub allowed : List String
  pub factors : List FactorSummary
  pub recovery_codes_left : ℕ
  pub step_up_expires_at : Option String

pub record RecoveryCodes : Type 0 where
  pub codes : List String

-- `SecondFactor`.
pub record PbSecondFactor : Type 0 where
  pub id : String
  pub kind : ℕ
  pub status : ℕ
  pub label : String
  pub masked_destination : String
  pub confirmed_at : Timestamp
  pub last_used_at : Timestamp

pub record EnrollSecondFactorRequest : Type 0 where
  pub kind : ℕ
  pub label : String
  pub destination : String
  pub idempotency_key : String

-- `EnrollSecondFactorResponse`.
pub record PbEnrolled : Type 0 where
  pub factor : PbSecondFactor
  pub challenge_id : String
  pub secret : String
  pub uri : String

pub record ConfirmSecondFactorRequest : Type 0 where
  pub factor_id : String
  pub challenge_id : String
  pub code : String

-- `ConfirmSecondFactorResponse`.
pub record PbConfirmed : Type 0 where
  pub factor : PbSecondFactor
  pub recovery_codes : List String

-- `ChallengeSecondFactorResponse`.
pub record PbChallenge : Type 0 where
  pub challenge_id : String
  pub kind : ℕ
  pub masked_destination : String
  pub expires_at : Timestamp

-- `StepUp`.
pub record PbStepUp : Type 0 where
  pub method : ℕ
  pub recovery : Bool
  pub expires_at : Timestamp

-- `GetSecondFactorStateResponse`.
pub record PbState : Type 0 where
  pub required : Bool
  pub enrolled : Bool
  pub stepped_up : Bool
  pub needs_setup : Bool
  pub allowed : List ℕ
  pub factors : List PbSecondFactor
  pub recovery_codes_left : ℕ
  pub step_up_expires_at : Timestamp

-- A request with the one field of a code or an id stands as that field.
pub record SecondFactorStub (W : Type 0) : Type 0 where
  pub get_state : Rpc W Unit PbState
  pub list_factors : Rpc W Unit (List PbSecondFactor)
  pub enroll : Rpc W EnrollSecondFactorRequest PbEnrolled
  pub confirm : Rpc W ConfirmSecondFactorRequest PbConfirmed
  pub revoke : Rpc W String Unit
  pub challenge : Rpc W String PbChallenge
  pub verify : Rpc W VerifyRequest PbStepUp
  pub verify_recovery : Rpc W String PbStepUp
  pub regenerate : Rpc W Unit (List String)
