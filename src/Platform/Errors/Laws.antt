-- ===== src/Platform/Errors/Laws.antt =====
-- Both ports tell a client the same about a core error, and nothing of a 5xx.
use dop_api.Base.{◌≤◌, ◌≡◌, ◌↔◌, Bool, true, false, arith}
use dop_api.Platform.Errors.{
  StatusCode, ok, aborted, other, AioRpcError, http_status_for, as_http, as_grpc, as_grpc_from_http,
  grpc_exception_handler,
}

-- Two core errors with one code whose HTTP status is 500 or more are answered alike, on the
-- REST handler, in the middleware's translation and on the gRPC port: nothing of the core's own
-- details gets out.
server_error_quiet :
    (e f : AioRpcError)
    → e.code ≡ f.code
    → 500 ≤ http_status_for e.code
    → (grpc_exception_handler e ≡ grpc_exception_handler f)
      × (as_http e ≡ as_http f)
      × (as_grpc e ≡ as_grpc f)
unfolding grpc_exception_handler as_http as_grpc
server_error_quiet e f same big = ground arith

-- The codes that the way through HTTP keeps.
abbrev pub is_kept : StatusCode → Bool
is_kept ok = false
is_kept aborted = false
is_kept (other name) = false
is_kept _ = true

-- A core error that was turned into an HTTP refusal and then into a gRPC status has the detail
-- that it has when it crosses directly; its code is the same exactly if it is neither OK nor
-- ABORTED nor one that the edge does not name; INTERNAL, which no table lists, is the status that
-- both tables fall back to and so comes back.
pub as_grpc_from_http-as_http :
    (e : AioRpcError)
    → ((as_grpc_from_http (as_http e)).1 ≡ (as_grpc e).1)
      × (((as_grpc_from_http (as_http e)).0 ≡ (as_grpc e).0) ↔ (is_kept e.code ≡ true))
unfolding as_http as_grpc as_grpc_from_http
as_grpc_from_http-as_http e = ground arith
