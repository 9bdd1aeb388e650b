-- ===== src/Grpcapi/SecondFactor/Laws.antt =====
-- The bounds on what a client of the gRPC port has the core check.
use dop_api.Base.{
  ◌⊎◌, ◌≡◌, inl, inr, ℕ, ◌≤◌, String, true, text_length, arith, Bool-cases, nat_eq, string_eq,
}
use dop_api.Platform.Context.{Scope}
use dop_api.Platform.Errors.{Error, StatusCode}
use dop_api.Coreclient.Client.{Outside, Metadata}
use dop_api.Coreclient.Client.Laws.{call_alike}
use dop_api.Usecases.Timestamp.{Timestamp}
use dop_api.Usecases.Forms.{has_length, confirm_factor, verify_request, recovery_request}
use dop_api.Usecases.SecondFactor.Models.{
  ConfirmSecondFactorRequest, VerifyRequest, RecoveryRequest, SecondFactorStub,
}
use dop_api.Usecases.SecondFactor.{confirm, verify, verify_recovery}
use dop_api.Grpcapi.Interceptors.{aborted, abort_of, error_wrap}
use dop_api.Grpcapi.SecondFactor.{confirm_rpc, verify_rpc, verify_recovery_rpc}

abbrev pub Within : ℕ → String → Type 0
Within high s = (1 ≤ text_length s) × (text_length s ≤ high)

-- The two stubs answer alike to a code and a label of a permitted length.
pub record BoundedAlike {W : Type 0} (stub other : SecondFactorStub W) : Type 0 where
  pub confirm :
      (md : Metadata) (q : ConfirmSecondFactorRequest) (w : W)
      → Within 32 q.code
      → stub.confirm md q w ≡ other.confirm md q w
  pub verify :
      (md : Metadata) (q : VerifyRequest) (w : W)
      → Within 32 q.code
      → stub.verify md q w ≡ other.verify md q w
  pub verify_recovery :
      (md : Metadata) (code : String) (w : W)
      → Within 64 code
      → stub.verify_recovery md code w ≡ other.verify_recovery md code w

within : (high : ℕ) (s : String) → has_length 1 high s ≡ true → Within high s
within high s h = (ground arith, ground arith)

module _ {W : Type 0} (out : Outside W) (stub : SecondFactorStub W) (isoformat : Timestamp → String)
    (repr : String → String) (fromisoformat : String → Timestamp) (s : Scope) (w : W) where
  confirm_alike :
      (other : SecondFactorStub W) (c : ConfirmSecondFactorRequest)
      → BoundedAlike stub other
      → (confirm_rpc out stub isoformat repr fromisoformat c s w
          ≡ confirm_rpc out other isoformat repr fromisoformat c s w)
  unfolding confirm_rpc confirm_factor confirm
  confirm_alike other c alike = elim (Bool-cases (has_length 1 32 c.code)) [
    | inr outside ↦ ground arith
    | inl inside ↦ ground (
      arith,
      call_alike out stub.confirm other.confirm c s w
          (λ md v. alike.confirm md c v (within 32 c.code inside)),
    )
  ]

  verify_alike :
      (other : SecondFactorStub W) (v : VerifyRequest)
      → BoundedAlike stub other
      → (verify_rpc out stub isoformat repr fromisoformat v s w
          ≡ verify_rpc out other isoformat repr fromisoformat v s w)
  unfolding verify_rpc verify_request verify
  verify_alike other v alike = elim (Bool-cases (has_length 1 32 v.code)) [
    | inr outside ↦ ground arith
    | inl inside ↦ ground (
      arith,
      call_alike out stub.verify other.verify v s w
          (λ md u. alike.verify md v u (within 32 v.code inside)),
    )
  ]

  recovery_alike :
      (other : SecondFactorStub W) (r : RecoveryRequest)
      → BoundedAlike stub other
      → (verify_recovery_rpc out stub isoformat repr fromisoformat r s w
          ≡ verify_recovery_rpc out other isoformat repr fromisoformat r s w)
  unfolding verify_recovery_rpc recovery_request verify_recovery
  recovery_alike other r alike = elim (Bool-cases (has_length 1 64 r.code)) [
    | inr outside ↦ ground arith
    | inl inside ↦ ground (
      arith,
      call_alike out stub.verify_recovery other.verify_recovery r.code s w
          (λ md u. alike.verify_recovery md r.code u (within 64 r.code inside)),
    )
  ]

  -- Whatever a client of the gRPC port sends, the core is asked to check no code that is empty or
  -- longer than 32 characters, 64 for a recovery code: a core that answers otherwise to such a code
  -- makes no difference. A client that sends one to be verified is told INVALID_ARGUMENT, and the
  -- core is not called.
  pub codes_bounded :
      (log : Error → W → W) (other : SecondFactorStub W) (c : ConfirmSecondFactorRequest)
      (v : VerifyRequest) (r : RecoveryRequest)
      → BoundedAlike stub other
      → (confirm_rpc out stub isoformat repr fromisoformat c s w
          ≡ confirm_rpc out other isoformat repr fromisoformat c s w)
        × (verify_rpc out stub isoformat repr fromisoformat v s w
            ≡ verify_rpc out other isoformat repr fromisoformat v s w)
        × (verify_recovery_rpc out stub isoformat repr fromisoformat r s w
            ≡ verify_recovery_rpc out other isoformat repr fromisoformat r s w)
        × (Within 32 v.code
            ⊎ (error_wrap log (verify_rpc out stub isoformat repr fromisoformat v) s w
                ≡ (aborted StatusCode.invalid_argument "code", w)))
  unfolding error_wrap abort_of verify_rpc verify_request
  codes_bounded log other c v r alike = (
    confirm_alike other c alike,
    verify_alike other v alike,
    recovery_alike other r alike,
    elim (Bool-cases (has_length 1 32 v.code)) [
      | inl inside ↦ inl (within 32 v.code inside)
      | inr outside ↦ inr (ground arith)
    ],
  )
