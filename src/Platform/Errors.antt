-- ===== src/Platform/Errors.antt =====
-- app/platform/errors.py: the core's gRPC status as an HTTP status, and back again for the gRPC
-- port. `StatusCode` is gRPC's enumeration: the codes that the program names, and `other` with its
-- name for each that it does not.
pub mod Laws
use dop_api.Base.{
  ◌≡◌, ◌⊎◌, inl, inr, refl, ℕ, String, Option, ◌==◌, nat_eq, leb, or_text, if◌then◌else◌,
}

pub data StatusCode : Type 0 where
  ok invalid_argument unauthenticated permission_denied not_found already_exists aborted :
      StatusCode
  failed_precondition resource_exhausted unimplemented unavailable deadline_exceeded : StatusCode
  internal : StatusCode
  other : String → StatusCode

-- A failed call of the core; `details` is `exc.details()`, which may be `None`.
pub record AioRpcError : Type 0 where
  pub code : StatusCode
  pub details : Option String

-- The web framework's exception, which the edge's own refusals are.
pub record HttpException : Type 0 where
  pub status_code : ℕ
  pub detail : String

-- What a call may raise: a core error, an HTTP refusal, a model's validation error, or any other
-- exception, these with their text.
pub data Error : Type 0 where
  rpc : AioRpcError → Error
  http : HttpException → Error
  validation : String → Error
  failure : String → Error

pub data Result {ℓ} (A : Type ℓ) : Type ℓ where
  done : A → Result A
  raised : Error → Result A

pub Result-cases {ℓ} :
    {A : Type ℓ} (r : Result A) → ((a : A) × (r ≡ done a)) ⊎ ((e : Error) × (r ≡ raised e))
Result-cases (done a) = inl (a, refl)
Result-cases (raised e) = inr (e, refl)

abbrev pub refuse {ℓ} : {A : Type ℓ} → ℕ → String → Result A
refuse status detail = raised (Error.http (record { status_code = status; detail = detail }))

pub http_status_for : StatusCode → ℕ
http_status_for ok = 200
http_status_for invalid_argument = 400
http_status_for unauthenticated = 401
http_status_for permission_denied = 403
http_status_for not_found = 404
http_status_for already_exists = 409
http_status_for aborted = 409
http_status_for failed_precondition = 412
http_status_for resource_exhausted = 429
http_status_for unimplemented = 501
http_status_for unavailable = 503
http_status_for deadline_exceeded = 504
http_status_for _ = 500

-- The one writer of details: a status of 500 or more says nothing of the core.
unfoldable pub detail_for : AioRpcError → ℕ → String
detail_for exc status =
    if leb 500 status then "internal error" else or_text exc.details "core error"

pub as_http : AioRpcError → HttpException
unfolding http_status_for detail_for
as_http exc =
    let status = http_status_for exc.code in
    record { status_code = status; detail = detail_for exc status }

-- `grpc_exception_handler`: the status and the detail of REST's response to a core error.
pub grpc_exception_handler : AioRpcError → ℕ × String
unfolding http_status_for detail_for
grpc_exception_handler exc =
    let status = http_status_for exc.code in (status, detail_for exc status)

unfoldable pub grpc_status_for_http : ℕ → StatusCode
grpc_status_for_http status =
    if status == 400
    then invalid_argument
    else if status == 401
    then unauthenticated
    else if status == 403
    then permission_denied
    else if status == 404
    then not_found
    else if status == 409
    then already_exists
    else if status == 412
    then failed_precondition
    else if status == 429
    then resource_exhausted
    else if status == 501
    then unimplemented
    else if status == 503
    then unavailable
    else if status == 504
    then deadline_exceeded
    else internal

unfoldable pub as_grpc : AioRpcError → StatusCode × String
unfolding http_status_for detail_for
as_grpc exc = (exc.code, detail_for exc (http_status_for exc.code))

unfoldable pub as_grpc_from_http : HttpException → StatusCode × String
unfolding grpc_status_for_http
as_grpc_from_http exc = (
  grpc_status_for_http exc.status_code,
  if leb 500 exc.status_code then "internal error" else exc.detail,
)

-- The status code's name, `exc.code().name`.
abbrev pub code_name : StatusCode → String
code_name ok = "OK"
code_name invalid_argument = "INVALID_ARGUMENT"
code_name unauthenticated = "UNAUTHENTICATED"
code_name permission_denied = "PERMISSION_DENIED"
code_name not_found = "NOT_FOUND"
code_name already_exists = "ALREADY_EXISTS"
code_name aborted = "ABORTED"
code_name failed_precondition = "FAILED_PRECONDITION"
code_name resource_exhausted = "RESOURCE_EXHAUSTED"
code_name unimplemented = "UNIMPLEMENTED"
code_name unavailable = "UNAVAILABLE"
code_name deadline_exceeded = "DEADLINE_EXCEEDED"
code_name internal = "INTERNAL"
code_name (other name) = name
