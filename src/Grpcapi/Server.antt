-- ===== src/Grpcapi/Server.antt =====
-- app/grpcapi/server.py and the base of the interceptors in app/grpcapi/interceptors.py: the stack that
-- a call of the gRPC port goes through. What `context.abort` raises stands as the error with the
-- status that the client gets. Sockets and reflection are calls of the library.
pub mod Laws
use dop_api.Base.{String, Bool, Option, none, some, nat_eq, string_eq, Dict}
use dop_api.Platform.Context.{Principal}
use dop_api.Platform.Errors.{Error, Result, done, raised}
use dop_api.Platform.Edge.{Edge}
use dop_api.Platform.Firebase.{Verdict}
use dop_api.Platform.Auth.{Resolver}
use dop_api.Platform.Logging.Requests.{Opened, Journal, logging_wrap}
use dop_api.Coreclient.Client.{Outside}
use dop_api.Usecases.Stream.Yields.{finished, broken, Source}
use dop_api.Grpcapi.Interceptors.{Reply, replied, aborted, auth_wrap, error_wrap}
use dop_api.Grpcapi.Interceptors.Streams.{
  Generator, StreamReply, auth_wrap_stream, error_wrap_stream,
}
use dop_api.Grpcapi.Interceptors.Logging.{StreamJournal, logging_wrap_stream}

-- The handler of a method: `unary_unary`, `unary_stream`, or one of the two that a client streams to.
pub data Handler (W A : Type 0) : Type 0 where
  unary : Edge W A → Handler W A
  streaming : Generator W A → Handler W A
  client_streaming : Generator W A → Handler W A

-- A reply, as what is around the error interceptor sees it.
abbrev pub result_of : {A : Type 0} → Reply A → Result A
result_of (replied a) = done a
result_of (aborted code detail) = raised (Error.rpc (record { code = code; details = some detail }))

abbrev pub source_of : {A : Type 0} → StreamReply A → Source A
source_of reply = (
  reply.items,
  elim reply.status [
    | none ↦ finished
    | some (code, detail) ↦ broken (Error.rpc (record { code = code; details = some detail }))
  ],
)

module _ {W A : Type 0} where
  -- `_Interceptor.intercept_service`, with what the rest of the stack found for the method.
  unfoldable pub intercept_service :
      (Edge W A → Edge W A)
      → (Generator W A → Generator W A)
      → Option (Handler W A)
      → Option (Handler W A)
  intercept_service wrap wrap_stream none = none
  intercept_service wrap wrap_stream (some (unary f)) = some (unary (wrap f))
  intercept_service wrap wrap_stream (some (streaming f)) = some (streaming (wrap_stream f))
  intercept_service wrap wrap_stream (some (client_streaming f)) = some (client_streaming f)

  -- `ErrorInterceptor` as a layer of the stack.
  unfoldable pub error_layer : (Error → W → W) → Edge W A → Edge W A
  error_layer log inner s w = let (reply, w') = error_wrap log inner s w in (result_of reply, w')

  unfoldable pub error_layer_stream : (Error → W → W) → Generator W A → Generator W A
  error_layer_stream log inner s w =
      let (reply, w') = error_wrap_stream log inner s w in (source_of reply, w')

-- What the interceptors are made with and read of a call.
pub record Call (W : Type 0) : Type 0 where
  pub request : Opened
  pub metadata : Dict String
  pub is_public : Bool
  pub statuses : String × String

module _ {W A : Type 0} (out : Outside W) (journal : Journal W) (streams : StreamJournal W)
    (log log_stream : Error → W → W) (verify : String → W → Verdict Principal × W)
    (resolver : Option (Resolver W)) where
  -- `GrpcServer.start`: logging outermost, the translation of errors, and next to the servicer the
  -- authentication.
  unfoldable pub intercepted : Call W → Option (Handler W A) → Option (Handler W A)
  unfolding intercept_service
  intercepted call handler =
      intercept_service (logging_wrap out journal call.statuses call.request)
        (logging_wrap_stream out streams call.request)
        (intercept_service (error_layer log) (error_layer_stream log_stream) (
          intercept_service (auth_wrap verify resolver call.is_public call.metadata)
            (auth_wrap_stream verify resolver call.is_public call.metadata) handler))
