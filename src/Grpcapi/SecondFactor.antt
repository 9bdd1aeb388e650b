-- ===== src/Grpcapi/SecondFactor.antt =====
-- app/grpcapi/secondfactor.py: the second factor on the gRPC port. The reading of a date that was
-- written with `isoformat` is a parameter. The requests have the fields of the use case's models.
pub mod Laws
use dop_api.Base.{
  ℕ, String, Bool, Option, none, some, List, [], ◌∷◌, map, nat_eq, string_eq, select, is_empty,
  is_in, if◌then◌else◌,
}
use dop_api.Base.Table.{Table, name_of, value_of, names}
use dop_api.Platform.Edge.{refusing, Edge, ◌>>=◌, pure}
use dop_api.Coreclient.Client.{Outside}
use dop_api.Usecases.Forms.{new_factor, confirm_factor, verify_request, recovery_request}
use dop_api.Usecases.Timestamp.{Timestamp}
use dop_api.Usecases.SecondFactor.Models.{
  FactorSummary, EnrollSecondFactorRequest, ConfirmSecondFactorRequest, EnrollResponse,
  ConfirmResponse, ChallengeRequest, ChallengeResponse, VerifyRequest, RecoveryRequest,
  StepUpResponse, SecondFactorState, SecondFactorStub,
}
use dop_api.Usecases.SecondFactor.{
  state, list_factors, enroll, confirm, revoke, challenge, verify, verify_recovery,
  regenerate_recovery_codes,
}

-- `SecondFactorSummary` of app/grpcapi/gen/dop/bff/v1/secondfactor_pb2.pyi; a date that is not set is
-- absent.
pub record BffFactor : Type 0 where
  pub id : String
  pub kind : ℕ
  pub status : ℕ
  pub label : String
  pub masked_destination : String
  pub confirmed_at : Option Timestamp
  pub last_used_at : Option Timestamp

-- `GetSecondFactorStateResponse`.
pub record BffState : Type 0 where
  pub required : Bool
  pub enrolled : Bool
  pub stepped_up : Bool
  pub needs_setup : Bool
  pub allowed : List ℕ
  pub factors : List BffFactor
  pub recovery_codes_left : ℕ
  pub step_up_expires_at : Option Timestamp

-- `EnrollSecondFactorResponse`.
pub record BffEnrolled : Type 0 where
  pub factor : BffFactor
  pub challenge_id : String
  pub secret : String
  pub uri : String

-- `ConfirmSecondFactorResponse`.
pub record BffConfirmed : Type 0 where
  pub factor : Option BffFactor
  pub recovery_codes : List String

-- `ChallengeSecondFactorResponse`.
pub record BffChallenge : Type 0 where
  pub challenge_id : String
  pub kind : ℕ
  pub masked_destination : String
  pub expires_at : Option Timestamp

-- `StepUpResult`.
pub record BffStepUp : Type 0 where
  pub method : ℕ
  pub recovery : Bool
  pub expires_at : Option Timestamp

-- `_KIND` and `_KIND_NAME`, and `_STATUS`.
abbrev pub kind_by_name : Table
kind_by_name = (1, "totp") ∷ (2, "email") ∷ (3, "sms") ∷ []

abbrev pub status_by_name : Table
status_by_name = (1, "pending") ∷ (2, "active") ∷ (3, "revoked") ∷ []

-- `[_KIND[k] for k in names if k in _KIND]`.
abbrev pub known_kinds : List String → List ℕ
known_kinds kinds = map (value_of kind_by_name) (select (λ k. is_in k (names kind_by_name)) kinds)

-- `_ts`.
abbrev pub time_of : (String → Timestamp) → Option String → Option Timestamp
time_of fromisoformat none = none
time_of fromisoformat (some text) =
    let time = fromisoformat text in if is_empty text then none else some time

-- `RevokeSecondFactor`'s answer.
abbrev pub revoked_factor : String → BffFactor
revoked_factor id = record {
  id = id;
  kind = 0;
  status = 3;
  label = "";
  masked_destination = "";
  confirmed_at = none;
  last_used_at = none;
}

module _ (fromisoformat : String → Timestamp) where
  -- `_factor`.
  unfoldable pub factor_message : FactorSummary → BffFactor
  factor_message f = record {
    id = f.id;
    kind = value_of kind_by_name f.kind;
    status = value_of status_by_name f.status;
    label = f.label;
    masked_destination = f.masked_destination;
    confirmed_at = time_of fromisoformat f.confirmed_at;
    last_used_at = time_of fromisoformat f.last_used_at;
  }

  abbrev pub state_message : SecondFactorState → BffState
  state_message st = record {
    required = st.required;
    enrolled = st.enrolled;
    stepped_up = st.stepped_up;
    needs_setup = st.needs_setup;
    allowed = known_kinds st.allowed;
    factors = map factor_message st.factors;
    recovery_codes_left = st.recovery_codes_left;
    step_up_expires_at = time_of fromisoformat st.step_up_expires_at;
  }

  abbrev pub enrolled_message : EnrollResponse → BffEnrolled
  enrolled_message r = record {
    factor = factor_message r.factor;
    challenge_id = r.challenge_id;
    secret = r.secret;
    uri = r.uri;
  }

  abbrev pub confirmed_message : ConfirmResponse → BffConfirmed
  confirmed_message r = record {
    factor = elim r.factor [ none ↦ none | some f ↦ some (factor_message f) ];
    recovery_codes = r.recovery_codes;
  }

  abbrev pub challenge_message : ChallengeResponse → BffChallenge
  challenge_message r = record {
    challenge_id = r.challenge_id;
    kind = value_of kind_by_name r.kind;
    masked_destination = r.masked_destination;
    expires_at = time_of fromisoformat r.expires_at;
  }

  -- `_step_up`.
  abbrev pub step_up_message : StepUpResponse → BffStepUp
  step_up_message r = record {
    method = value_of kind_by_name r.method;
    recovery = r.recovery;
    expires_at = time_of fromisoformat r.expires_at;
  }

module _ {W : Type 0} (out : Outside W) (stub : SecondFactorStub W) (isoformat : Timestamp → String)
    (repr : String → String) (fromisoformat : String → Timestamp) where
  unfoldable pub state_rpc : Edge W BffState
  state_rpc = do st ← state out stub isoformat repr; pure (state_message fromisoformat st)

  unfoldable pub list_rpc : Edge W (List BffFactor)
  list_rpc = do
    fs ← list_factors out stub isoformat repr
    pure (map (factor_message fromisoformat) fs)

  unfoldable pub enroll_rpc : EnrollSecondFactorRequest → Edge W BffEnrolled
  enroll_rpc request = do
    body ← refusing (
        new_factor (record {
          kind = name_of kind_by_name request.kind;
          label = request.label;
          destination = request.destination;
        }))
    r ← enroll out stub isoformat repr body
    pure (enrolled_message fromisoformat r)

  unfoldable pub confirm_rpc : ConfirmSecondFactorRequest → Edge W BffConfirmed
  confirm_rpc request = do
    body ←
        refusing
          (confirm_factor (record { challenge_id = request.challenge_id; code = request.code }))
    r ← confirm out stub isoformat repr request.factor_id body
    pure (confirmed_message fromisoformat r)

  unfoldable pub revoke_rpc : String → Edge W BffFactor
  revoke_rpc id = do _ ← revoke out stub isoformat repr id; pure (revoked_factor id)

  unfoldable pub challenge_rpc : ChallengeRequest → Edge W BffChallenge
  challenge_rpc request = do
    r ← challenge out stub isoformat repr request
    pure (challenge_message fromisoformat r)

  unfoldable pub verify_rpc : VerifyRequest → Edge W BffStepUp
  verify_rpc request = do
    body ← refusing (verify_request request)
    r ← verify out stub isoformat repr body
    pure (step_up_message fromisoformat r)

  unfoldable pub verify_recovery_rpc : RecoveryRequest → Edge W BffStepUp
  verify_recovery_rpc request = do
    body ← refusing (recovery_request request)
    r ← verify_recovery out stub isoformat repr body
    pure (step_up_message fromisoformat r)

  unfoldable pub regenerate_rpc : Edge W (List String)
  regenerate_rpc = do r ← regenerate_recovery_codes out stub isoformat repr; pure r.codes
