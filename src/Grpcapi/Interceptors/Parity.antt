-- ===== src/Grpcapi/Interceptors/Parity.antt =====
-- The two ports agree on who a caller is: the middleware of REST and the interceptor of the gRPC
-- port, built with one verifier and one resolver, and given the same two headers.
use dop_api.Grpcapi.Interceptors.{Reply, replied, aborted, auth_wrap, error_wrap, abort_of}
use dop_api.Base.{
  ◌==◌, nat_eq, ℕ, leb, if◌then◌else◌, String, Bool, false, Option, Dict, [], ◌∷◌, ◌||◌, ◌≡◌, is_in,
  arith,
}
use dop_api.Platform.Context.{Principal, Scope}
use dop_api.Platform.Errors.{
  Error, StatusCode, grpc_status_for_http, as_grpc_from_http, Result, done, raised,
}
use dop_api.Platform.Edge.{Edge}
use dop_api.Platform.Firebase.{Verdict}
use dop_api.Platform.Routes.{HttpRequest}
use dop_api.Platform.Auth.{Response, json, handled, Resolver, exempt_paths, dispatch}

-- A servicer or a route's handler that answers: what it sees is the scope.
abbrev pub Handler : Type 0 → Type 0 → Type 0
Handler W A = Scope → W → A × W

abbrev pub as_route : {W A : Type 0} → Handler W A → Edge W (Response A)
as_route h s w = let (a, w') = h s w in (done (handled a), w')

abbrev pub as_servicer : {W A : Type 0} → Handler W A → Edge W A
as_servicer h s w = let (a, w') = h s w in (done a, w')

-- gRPC's code for a status of the edge.
abbrev pub code_for : ℕ → StatusCode
code_for status =
    if status == 400
    then StatusCode.invalid_argument
    else if status == 401
    then StatusCode.unauthenticated
    else if status == 403
    then StatusCode.permission_denied
    else if status == 404
    then StatusCode.not_found
    else if status == 409
    then StatusCode.already_exists
    else if status == 412
    then StatusCode.failed_precondition
    else if status == 429
    then StatusCode.resource_exhausted
    else if status == 501
    then StatusCode.unimplemented
    else if status == 503
    then StatusCode.unavailable
    else if status == 504
    then StatusCode.deadline_exceeded
    else StatusCode.internal

-- What a client of the gRPC port gets where REST's middleware answers so.
abbrev pub grpc_answer : {W A : Type 0} → (Error → W → W) → Result (Response A) × W → Reply A × W
grpc_answer log (done (handled a), w) = (replied a, w)
grpc_answer log (done (json status detail), w) =
    (aborted (code_for status) (if leb 500 status then "internal error" else detail), w)
grpc_answer log (raised e, w) = (aborted StatusCode.internal "internal error", log e w)

abbrev pub metadata_of : HttpRequest → Dict String
metadata_of req = ("authorization", req.authorization) ∷ ("x-account-id", req.account) ∷ []

module _ {W A : Type 0} (verify : String → W → Verdict Principal × W)
    (resolver : Option (Resolver W)) (is_public is_token_only : HttpRequest → Bool) where
  -- For a route that is neither public nor exempt nor for the token alone, what a client of the
  -- gRPC port gets is what REST answers: the handler's answer, from the same context, or a refusal
  -- after the same calls outside, with the code of REST's status and REST's own detail. Of a status of
  -- 500 or more, as that of a resolver that failed, the gRPC port says "internal error"; and a
  -- verifier that crashes, which ends REST's request with an error, is INTERNAL and a line of the log.
  pub dispatch-auth_wrap :
      (log : Error → W → W) (req : HttpRequest) (h : Handler W A) (s : Scope) (w : W)
      → (is_public req || is_in req.path exempt_paths) ≡ false
      → is_token_only req ≡ false
      → error_wrap log (auth_wrap verify resolver false (metadata_of req) (as_servicer h)) s w
        ≡ grpc_answer log (dispatch verify resolver is_public is_token_only req (as_route h) s w)
  unfolding dispatch auth_wrap error_wrap grpc_status_for_http as_grpc_from_http abort_of
  dispatch-auth_wrap log req h s w guarded whole = ground arith
