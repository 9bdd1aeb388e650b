-- ===== src/Grpcapi/Server/Laws.antt =====
-- The whole stack of the gRPC port.
use dop_api.Base.{
  refl, inr, inl, ◌-◌, [], true, String, ◌≡◌, false, Option, none, some, is_empty, get_default,
  nat_eq, string_eq, arith,
}
use dop_api.Platform.Logging.Requests.{
  request_line, request_scope, failure_line, Journal, Line, logging_wrap, own_id,
}
use dop_api.Platform.Errors.{Result-cases, Error, Result, raised, StatusCode}
use dop_api.Grpcapi.Server.{
  result_of, Handler, unary, streaming, client_streaming, error_layer, error_layer_stream, Call,
  intercepted,
}
use dop_api.Grpcapi.Interceptors.Logging.{
  closing_line, opening_line, StreamLine, StreamJournal, logging_wrap_stream,
}
use dop_api.Platform.Context.{Principal, Scope}
use dop_api.Platform.Edge.{Edge}
use dop_api.Platform.Firebase.{Verdict}
use dop_api.Platform.Auth.{Resolver}
use dop_api.Coreclient.Client.{Outside}
use dop_api.Usecases.Stream.Yields.{broken, Source}
use dop_api.Grpcapi.Interceptors.{auth_wrap, error_wrap}
use dop_api.Grpcapi.Interceptors.Streams.{Generator, auth_wrap_stream, error_wrap_stream}

-- What a call of a handler comes to: an answer, a stream, or nothing, where there is no such method.
pub data Outcome (W A : Type 0) : Type 0 where
  absent : Outcome W A
  answered : Result A × W → Outcome W A
  streamed : Source A × W → Outcome W A

abbrev pub call_of : {W A : Type 0} → Option (Handler W A) → Scope → W → Outcome W A
call_of none s w = absent
call_of (some (unary f)) s w = answered (f s w)
call_of (some (streaming f)) s w = streamed (f s w)
call_of (some (client_streaming f)) s w = streamed (f s w)

abbrev pub no_token : Error
no_token =
    Error.rpc (record { code = StatusCode.unauthenticated; details = some "Not authenticated" })

module _ {W A : Type 0} (out : Outside W) (journal : Journal W) (streams : StreamJournal W)
    (log log_stream : Error → W → W) (verify : String → W → Verdict Principal × W)
    (resolver : Option (Resolver W)) (call : Call W) (s : Scope) (w : W) where
  -- Without a token no method is run that is not public, be it plain or a stream of the server: the
  -- client is told UNAUTHENTICATED and gets no item, the verifier and the core are not asked, and
  -- nothing happens but that the call's id is drawn and its log lines are written.
  pub intercepted_unauthenticated :
      (f : Edge W A) (g : Generator W A)
      → call.is_public ≡ false
      → is_empty (get_default call.metadata "authorization" "") ≡ true
      → let u = (own_id out call.request w).1 in
        ((l : Line) × (call_of
              (intercepted out journal streams log log_stream verify resolver call (some (unary f)))
              s
              w
            ≡ answered (raised no_token, journal.write l u)))
        × ((opening closing : StreamLine) × (call_of
                (intercepted out journal streams log log_stream verify resolver call
                  (some (streaming g)))
                s
                w
              ≡ streamed (([], broken no_token), streams.write closing (streams.write opening u))))
  unfolding intercepted logging_wrap logging_wrap_stream error_layer error_layer_stream error_wrap
      error_wrap_stream auth_wrap auth_wrap_stream
  intercepted_unauthenticated f g secret missing =
      let req = call.request in
      let u = (own_id out req w).1 in
      let opened = streams.write (opening_line out streams req) u in
      (
        (
          failure_line out journal req (some call.statuses.0) no_token
              (journal.perf_counter u - journal.perf_counter u),
          ground arith,
        ),
        (
          opening_line out streams req,
          closing_line out streams req (broken no_token) 0
              (streams.perf_counter opened - streams.perf_counter u),
          ground arith,
        ),
      )

  -- What the client of a plain method gets is what the authentication and the translation of errors
  -- make of it, in the context with the call's id: to log it changes neither the answer nor a status,
  -- and the world only by one line. A method that a client streams to is reached as it is, behind
  -- none of the three, and an unknown one is not found.
  pub intercepted_transparent :
      (f : Edge W A) (g : Generator W A)
      → let (rid, u) = own_id out call.request w in
        let reply =
          error_wrap log
            (auth_wrap verify resolver call.is_public call.metadata f)
            (request_scope s call.request rid)
            u in
        ((l : Line) × (call_of
              (intercepted out journal streams log log_stream verify resolver call (some (unary f)))
              s
              w
            ≡ answered (result_of reply.0, journal.write l reply.1)))
        × (intercepted out journal streams log log_stream verify resolver call
              (some (client_streaming g))
            ≡ some (client_streaming g))
        × (intercepted {A = A} out journal streams log log_stream verify resolver call none ≡ none)
  unfolding intercepted logging_wrap error_layer
  intercepted_transparent f g =
      let (rid, u) = own_id out call.request w in
      let reply =
        error_wrap log (auth_wrap verify resolver call.is_public call.metadata f)
          (request_scope s call.request rid) u in
      let ms = journal.perf_counter reply.1 - journal.perf_counter u in
      (
        elim (Result-cases (result_of reply.0)) [
          | inl (a, ok) ↦ (request_line out journal call.request call.statuses.1 ms, ground arith)
          | inr (e, failed) ↦
              (failure_line out journal call.request (some call.statuses.0) e ms, ground arith)
        ],
        refl,
        refl,
      )
