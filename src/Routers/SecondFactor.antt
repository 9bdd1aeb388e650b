-- ===== src/Routers/SecondFactor.antt =====
-- app/routers/secondfactor.py: each route is its use case. The response of a revocation has no body.
use dop_api.Base.{String, List, nat_eq, string_eq}
use dop_api.Platform.Edge.{Edge}
use dop_api.Coreclient.Client.{Outside}
use dop_api.Usecases.Timestamp.{Timestamp}
use dop_api.Usecases.SecondFactor.Models.{
  SecondFactorStub, FactorSummary, NewFactor, EnrollResponse, ConfirmFactor, ConfirmResponse,
  ChallengeRequest, ChallengeResponse, VerifyRequest, RecoveryRequest, StepUpResponse,
  SecondFactorState, RecoveryCodes,
}
use dop_api.Usecases.SecondFactor

module _ {W : Type 0} (out : Outside W) (stub : SecondFactorStub W) (isoformat : Timestamp → String)
    (repr : String → String) where
  unfoldable pub second_factor_state : Edge W SecondFactorState
  second_factor_state = SecondFactor.state out stub isoformat repr

  unfoldable pub list_second_factors : Edge W (List FactorSummary)
  list_second_factors = SecondFactor.list_factors out stub isoformat repr

  unfoldable pub enroll_second_factor : NewFactor → Edge W EnrollResponse
  enroll_second_factor body = SecondFactor.enroll out stub isoformat repr body

  unfoldable pub confirm_second_factor : String → ConfirmFactor → Edge W ConfirmResponse
  confirm_second_factor factor_id body = SecondFactor.confirm out stub isoformat repr factor_id body

  unfoldable pub revoke_second_factor : String → Edge W Unit
  revoke_second_factor factor_id = SecondFactor.revoke out stub isoformat repr factor_id

  unfoldable pub challenge_second_factor : ChallengeRequest → Edge W ChallengeResponse
  challenge_second_factor body = SecondFactor.challenge out stub isoformat repr body

  unfoldable pub verify_second_factor : VerifyRequest → Edge W StepUpResponse
  verify_second_factor body = SecondFactor.verify out stub isoformat repr body

  unfoldable pub verify_recovery_code : RecoveryRequest → Edge W StepUpResponse
  verify_recovery_code body = SecondFactor.verify_recovery out stub isoformat repr body

  unfoldable pub regenerate_recovery_codes : Edge W RecoveryCodes
  regenerate_recovery_codes = SecondFactor.regenerate_recovery_codes out stub isoformat repr
