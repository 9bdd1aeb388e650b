-- ===== src/Usecases/SecondFactor.antt =====
-- app/usecases/secondfactor.py: the second factor. The core keeps the seed and checks the code; the
-- edge translates. How a name is quoted, `repr`, is a parameter.
pub mod Models
pub mod Laws
use dop_api.Base.{
  ℕ, String, none, some, List, [], ◌∷◌, map, nat_eq, string_eq, is_empty, is_in, ◌<>◌,
  if◌then◌else◌,
}
use dop_api.Base.Table.{Table, name_of, value_of, names}
use dop_api.Platform.Errors.{Result, done, refuse}
use dop_api.Platform.Edge.{Edge, ◌>>=◌, pure, refusing}
use dop_api.Coreclient.Client.{Outside, call}
use dop_api.Usecases.Timestamp.{Timestamp, ts}
use Models.{
  PbSecondFactor, PbStepUp, PbState, PbEnrolled, PbConfirmed, PbChallenge, SecondFactorStub,
  FactorSummary, NewFactor, EnrollResponse, ConfirmFactor, ConfirmResponse, ChallengeRequest,
  ChallengeResponse, VerifyRequest, RecoveryRequest, StepUpResponse, SecondFactorState,
  RecoveryCodes,
}

-- `_KIND_TO_PROTO` and `_KIND_FROM_PROTO`.
abbrev pub kind_to_proto : Table
kind_to_proto = (1, "totp") ∷ (2, "email") ∷ (3, "sms") ∷ []

abbrev pub status_from_proto : Table
status_from_proto = (1, "pending") ∷ (2, "active") ∷ (3, "revoked") ∷ []

-- `_kind_value`.
pub kind_value : (String → String) → String → Result ℕ
kind_value repr kind =
    if is_in kind (names kind_to_proto)
    then done (value_of kind_to_proto kind)
    else refuse 422 ("unknown second factor kind: " <> repr kind)

module _ (isoformat : Timestamp → String) where
  -- `_factor`.
  abbrev pub factor_of : PbSecondFactor → FactorSummary
  factor_of f = record {
    id = f.id;
    kind = name_of kind_to_proto f.kind;
    status = name_of status_from_proto f.status;
    label = f.label;
    masked_destination = f.masked_destination;
    confirmed_at = ts isoformat f.confirmed_at;
    last_used_at = ts isoformat f.last_used_at;
  }

  -- `_step_up`.
  step_up : PbStepUp → StepUpResponse
  step_up resp = record {
    method = if resp.recovery then "recovery_code" else name_of kind_to_proto resp.method;
    recovery = resp.recovery;
    expires_at = ts isoformat resp.expires_at;
  }

  abbrev pub state_of : PbState → SecondFactorState
  state_of resp = record {
    required = resp.required;
    enrolled = resp.enrolled;
    stepped_up = resp.stepped_up;
    needs_setup = resp.needs_setup;
    allowed = map (name_of kind_to_proto) resp.allowed;
    factors = map factor_of resp.factors;
    recovery_codes_left = resp.recovery_codes_left;
    step_up_expires_at = ts isoformat resp.step_up_expires_at;
  }

  abbrev pub enrolled_of : PbEnrolled → EnrollResponse
  enrolled_of resp = record {
    factor = factor_of resp.factor;
    challenge_id = resp.challenge_id;
    secret = resp.secret;
    uri = resp.uri;
  }

  -- A factor without an id is no factor.
  abbrev pub confirmed_of : PbConfirmed → ConfirmResponse
  confirmed_of resp = record {
    factor = if is_empty resp.factor.id then none else some (factor_of resp.factor);
    recovery_codes = resp.recovery_codes;
  }

  abbrev pub challenge_of : PbChallenge → ChallengeResponse
  challenge_of resp = record {
    challenge_id = resp.challenge_id;
    kind = name_of kind_to_proto resp.kind;
    masked_destination = resp.masked_destination;
    expires_at = ts isoformat resp.expires_at;
  }

module _ {W : Type 0} (out : Outside W) (stub : SecondFactorStub W) (isoformat : Timestamp → String)
    (repr : String → String) where
  unfoldable pub state : Edge W SecondFactorState
  state = do resp ← call out stub.get_state tt; pure (state_of isoformat resp)

  unfoldable pub list_factors : Edge W (List FactorSummary)
  list_factors = do fs ← call out stub.list_factors tt; pure (map (factor_of isoformat) fs)

  -- The kind is looked up before anything else.
  pub enroll : NewFactor → Edge W EnrollResponse
  unfolding kind_value
  enroll body = do
    kind ← refusing (kind_value repr body.kind)
    resp ← call out stub.enroll (record {
      kind = kind;
      label = body.label;
      destination = body.destination;
      idempotency_key = "";
    })
    pure (enrolled_of isoformat resp)

  unfoldable pub confirm : String → ConfirmFactor → Edge W ConfirmResponse
  confirm factor_id body = do
    resp ←
        call out stub.confirm
          (record { factor_id = factor_id; challenge_id = body.challenge_id; code = body.code })
    pure (confirmed_of isoformat resp)

  unfoldable pub revoke : String → Edge W Unit
  revoke factor_id = do _ ← call out stub.revoke factor_id; pure tt

  unfoldable pub challenge : ChallengeRequest → Edge W ChallengeResponse
  challenge body = do
    resp ← call out stub.challenge body.factor_id
    pure (challenge_of isoformat resp)

  unfoldable pub verify : VerifyRequest → Edge W StepUpResponse
  unfolding step_up
  verify body = do resp ← call out stub.verify body; pure (step_up isoformat resp)

  unfoldable pub verify_recovery : RecoveryRequest → Edge W StepUpResponse
  unfolding step_up
  verify_recovery body = do
    resp ← call out stub.verify_recovery body.code
    pure (step_up isoformat resp)

  unfoldable pub regenerate_recovery_codes : Edge W RecoveryCodes
  regenerate_recovery_codes = do
    codes ← call out stub.regenerate tt
    pure (record { codes = codes })
