-- ===== src/Grpcapi/Interceptors.antt =====
-- app/grpcapi/interceptors.py: the authentication and error interceptors of the gRPC port.
pub mod Parity
pub mod Streams
pub mod Logging
use dop_api.Base.{
  String, Bool, true, false, Option, none, some, Dict, is_empty, get_default, if◌then◌else◌,
}
use dop_api.Platform.Context.{Principal, Scope}
use dop_api.Platform.Errors.{
  Error, StatusCode, invalid_argument, internal, done, raised, refuse, as_grpc, as_grpc_from_http,
}
use dop_api.Platform.Edge.{Edge, ◌>>=◌}
use dop_api.Platform.Firebase.{Verdict, verified, invalid, crashed}
use dop_api.Platform.Auth.{Identity, no_identity, auth_context, bare_token, Resolver}

-- What the client of the gRPC port gets: the reply, or the status of `context.abort`.
pub data Reply {ℓ} (A : Type ℓ) : Type ℓ where
  replied : A → Reply A
  aborted : StatusCode → String → Reply A

-- What `_authenticate` returns: the principal, the raw token and the active account.
pub record Authenticated : Type 0 where
  pub principal : Principal
  pub raw_token : String
  pub account_id : String

-- What becomes of an exception of the resolver.
abbrev pub reraise : Error → Error
reraise (Error.http e) = Error.http e
reraise _ = Error.http (record { status_code = 503; detail = "Failed to resolve the account" })

module _ {W : Type 0} (verify : String → W → Verdict Principal × W)
    (resolver : Option (Resolver W)) where
  -- `AuthInterceptor._authenticate`.
  pub authenticate : Dict String → Edge W Authenticated
  authenticate md s w =
      let raw = get_default md "authorization" "" in
      let (verdict, w') = verify raw w in
      if is_empty raw then (refuse 401 "Not authenticated", w) else elim verdict [
        | invalid e ↦ (refuse 401 e, w')
        | crashed e ↦ (raised (Error.failure e), w')
        | verified principal ↦ (
          done (record {
            principal = principal;
            raw_token = bare_token raw;
            account_id = get_default md "x-account-id" "";
          }),
          w',
        )
      ]

  -- `AuthInterceptor._resolve`.
  unfoldable pub resolve : Principal → String → String → Edge W Identity
  resolve principal account token s w = elim resolver [
    | none ↦ (done no_identity, w)
    | some ask ↦
        let (found, w') = ask principal account token s w in
        elim found [ done i ↦ (done i, w') | raised e ↦ (raised (reraise e), w') ]
  ]

  -- `AuthInterceptor._wrap`; the second argument says whether the servicer's method is `@public`.
  unfoldable pub auth_wrap : {A : Type 0} → Bool → Dict String → Edge W A → Edge W A
  unfolding authenticate resolve
  auth_wrap true md inner = inner
  auth_wrap false md inner = do
    a ← authenticate md
    i ← resolve a.principal a.account_id a.raw_token
    λ s w.
        inner (record s { auth_ctx = some (auth_context a.principal a.raw_token a.account_id i) }) w

-- The status and the detail of an exception, in `ErrorInterceptor._wrap`.
unfoldable pub abort_of : Error → StatusCode × String
unfolding as_grpc as_grpc_from_http
abort_of (Error.rpc exc) = as_grpc exc
abort_of (Error.http exc) = as_grpc_from_http exc
abort_of (Error.validation text) = (invalid_argument, text)
abort_of (Error.failure text) = (internal, "internal error")

-- An exception that is none of the three is written to the log; the first argument writes the line.
abbrev pub logged : {W : Type 0} → (Error → W → W) → Error → W → W
logged log (Error.failure text) w = log (Error.failure text) w
logged log _ w = w

unfoldable pub error_wrap : {W A : Type 0} → (Error → W → W) → Edge W A → Scope → W → Reply A × W
unfolding abort_of
error_wrap log inner s w =
    let (r, w') = inner s w in
    elim r [
      | done a ↦ (replied a, w')
      | raised e ↦ let (code, detail) = abort_of e in (aborted code detail, logged log e w')
    ]
