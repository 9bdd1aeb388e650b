-- ===== src/Tests/Stack.antt =====
-- The theorems about the stacks of the two ports, and about what they let through, at concrete calls.
use dop_api.Base.{
  text_length, leb, ◌&&◌, ◌≡◌, ◌⊎◌, ℕ, suc, Bool, true, false, String, none, some, [], ◌∷◌, refl,
  nat_eq, string_eq, ◌==◌, get, if◌then◌else◌, arith,
}
use dop_api.Base.Int.{pos, ℤ}
use dop_api.Usecases.Timestamp.{Timestamp}
use dop_api.Usecases.SecondFactor.Models.{
  PbStepUp, VerifyRequest, RecoveryRequest, ConfirmSecondFactorRequest, SecondFactorStub,
}
use dop_api.Grpcapi.SecondFactor.{confirm_rpc, verify_rpc, verify_recovery_rpc}
use dop_api.Grpcapi.SecondFactor.Laws.{Within, BoundedAlike, codes_bounded}
use dop_api.Platform.Context.{Principal}
use dop_api.Platform.Errors.{Error, HttpException, StatusCode, AioRpcError, done, raised}
use dop_api.Platform.Edge.{Edge}
use dop_api.Platform.Firebase.{Verdict, verified}
use dop_api.Platform.Json.{Json}
use dop_api.Platform.Routes.{HttpRequest}
use dop_api.Platform.Logging.Requests.{Opened, Journal, Line, LoggedResponse}
use dop_api.Coreclient.Client.{Rpc}
use dop_api.Usecases.Stream.Yields.{broken, finished}
use dop_api.Usecases.Knowledge.Models.{PbArtifact, PutArtifactRequest, KnowledgeStub}
use dop_api.Grpcapi.Interceptors.{aborted, error_wrap}
use dop_api.Grpcapi.Interceptors.Streams.{Generator}
use dop_api.Grpcapi.Interceptors.Logging.{StreamJournal, StreamLine}
use dop_api.Grpcapi.Server.{Call, unary, streaming, intercepted}
use dop_api.Grpcapi.Server.Laws.{call_of, answered, streamed, no_token, intercepted_unauthenticated}
use dop_api.Grpcapi.Knowledge.{BffPutArtifact}
use dop_api.App.{served}
use dop_api.App.Laws.{is_own, served_traced}
use dop_api.Platform.Tracing.{TraceSettings, setup, cloud_trace}
use dop_api.App.Lifespan.{lifespan, always, serves_core, idle, last_state, lifespan_ordered}
use dop_api.Tests.World.{unread, outside, nowhere, unused, answering, ana}

abbrev traces_of : String → ℤ → TraceSettings
traces_of backend ratio = record {
  trace_backend = backend;
  otel_exporter_otlp_endpoint = "";
  trace_gcp_project = "";
  trace_sample_ratio = ratio;
}

halved :
    setup (traces_of "gcp" (pos 500000))
    ≡ done (some (record { ratio = pos 500000; exporter = cloud_trace none }))
unfolding setup
halved = refl

lifespan_ordered_example :
    (always serves_core idle (lifespan (traces_of "gcp" (pos 500000)) true 50051) ≡ true)
    × ((last_state idle (lifespan (traces_of "gcp" (pos 500000)) true 50051)).grpc_port ≡ 0)
    × ((last_state idle (lifespan (traces_of "gcp" (pos 500000)) true 50051)).channel ≡ false)
unfolding setup
lifespan_ordered_example = lifespan_ordered (traces_of "gcp" (pos 500000)) true 50051

abbrev asked : Opened
asked = record { request_id = "r9"; path = "/me"; method = "GET"; client_ip = "" }

abbrev silent : Journal ℕ
silent = record {
  str_error = λ e. "";
  perf_counter = λ n. n;
  write = λ l n. n;
  str_status = λ n. "";
}

abbrev silent_streams : StreamJournal ℕ
silent_streams = record {
  str_error = λ e. "";
  perf_counter = λ n. n;
  write = λ l n. n;
  str_status = λ e. "";
}

abbrev accept : String → ℕ → Verdict Principal × ℕ
accept raw n = (verified ana, suc n)

abbrev never : HttpRequest → Bool
never req = false

abbrev plain : HttpException → LoggedResponse
plain exc = record { status_code = exc.status_code; headers = [] }

abbrev missing : AioRpcError
missing = record { code = StatusCode.not_found; details = some "no such demand" }

abbrev failing : Edge ℕ LoggedResponse
failing s n = (raised (Error.rpc missing), n)

abbrev request : HttpRequest
request = record { method = "GET"; path = "/me"; authorization = "Bearer tok"; account = "" }

served_traced_example :
    ((resp : LoggedResponse) × ((served plain outside silent accept none never never asked request
          failing nowhere 0).0
        ≡ done resp)
      × (get resp.headers "x-request-id" ≡ some "r9"))
    ⊎ ((e : Error) × ((served plain outside silent accept none never never asked request failing
            nowhere 0).0
          ≡ raised e)
        × (is_own e ≡ true))
served_traced_example =
    served_traced plain outside silent accept none never never asked request nowhere 0 failing

abbrev call : Call ℕ
call = record { request = asked; metadata = []; is_public = false; statuses = ("", "OK") }

abbrev hello : Edge ℕ String
hello s n = (done "hello", suc n)

abbrev hellos : Generator ℕ String
hellos s n = (("hello" ∷ [], finished), suc n)

intercepted_unauthenticated_example :
    ((l : Line) × (call_of
          (intercepted outside silent silent_streams unread unread accept none call
            (some (unary hello)))
          nowhere
          0
        ≡ answered (raised no_token, 0)))
    × ((opening closing : StreamLine) × (call_of
            (intercepted outside silent silent_streams unread unread accept none call
              (some (streaming hellos)))
            nowhere
            0
          ≡ streamed (([], broken no_token), 0)))
intercepted_unauthenticated_example =
    intercepted_unauthenticated outside silent silent_streams unread unread accept none call nowhere
      0 hello hellos refl refl

abbrev note : PbArtifact
note = record {
  id = "a1";
  project = "";
  kind = 1;
  name = "note";
  version = 1;
  object_ref = "";
  meta = none;
}

abbrev knowledge_with : Rpc ℕ PutArtifactRequest PbArtifact → KnowledgeStub ℕ
knowledge_with put = record {
  build_context_package = unused;
  search_memory = unused;
  read_index = unused;
  list_rules = unused;
  put_artifact = put;
}

-- A method that takes an artifact of one name alone.
abbrev one_name : Rpc ℕ PutArtifactRequest PbArtifact
one_name md q n = if q.name == "note" then (done note, suc n) else (raised (Error.failure ""), n)

abbrev writing : BffPutArtifact
writing = record {
  kind = 1;
  project_id = "";
  name = "note";
  content = 104 ∷ 105 ∷ [];
  meta = none;
  idempotency_key = "k";
}

abbrev no_text : Json → String
no_text j = ""

abbrev never_set : Timestamp
never_set = record { seconds = pos 0; nanos = 0 }

abbrev step_up : PbStepUp
step_up = record { method = 1; recovery = false; expires_at = never_set }

-- A method that checks no code that is too short or too long.
abbrev strict : Rpc ℕ VerifyRequest PbStepUp
strict md q n =
    if leb 1 (text_length q.code) && leb (text_length q.code) 32
    then (done step_up, suc n)
    else (raised (Error.failure "strict"), n)

abbrev factors_with : Rpc ℕ VerifyRequest PbStepUp → SecondFactorStub ℕ
factors_with check = record {
  get_state = unused;
  list_factors = unused;
  enroll = unused;
  confirm = unused;
  revoke = unused;
  challenge = unused;
  verify = check;
  verify_recovery = unused;
  regenerate = unused;
}

strict_alike : BoundedAlike (factors_with (answering step_up)) (factors_with strict)
strict_alike = record {
  confirm = λ md q n inside. refl;
  verify = λ md q n inside. ground (arith, inside);
  verify_recovery = λ md code n inside. refl;
}

abbrev iso : Timestamp → String
iso t = ""

abbrev from_iso : String → Timestamp
from_iso s = never_set

abbrev quote : String → String
quote s = s

abbrev code : VerifyRequest
code = record { challenge_id = "c1"; code = "123456" }

abbrev confirmation : ConfirmSecondFactorRequest
confirmation = record { factor_id = "f1"; challenge_id = "c1"; code = "123456" }

abbrev recovery : RecoveryRequest
recovery = record { code = "aaaa-bbbb" }

codes_bounded_example :
    (confirm_rpc outside
        (factors_with (answering step_up))
        iso
        quote
        from_iso
        confirmation
        nowhere
        0
      ≡ confirm_rpc outside (factors_with strict) iso quote from_iso confirmation nowhere 0)
    × (verify_rpc outside (factors_with (answering step_up)) iso quote from_iso code nowhere 0
        ≡ verify_rpc outside (factors_with strict) iso quote from_iso code nowhere 0)
    × (verify_recovery_rpc outside
          (factors_with (answering step_up))
          iso
          quote
          from_iso
          recovery
          nowhere
          0
        ≡ verify_recovery_rpc outside (factors_with strict) iso quote from_iso recovery nowhere 0)
    × (Within 32 "123456"
        ⊎ (error_wrap unread
              (verify_rpc outside (factors_with (answering step_up)) iso quote from_iso code)
              nowhere
              0
            ≡ (aborted StatusCode.invalid_argument "code", 0)))
codes_bounded_example =
    codes_bounded outside (factors_with (answering step_up)) iso quote from_iso nowhere 0 unread
      (factors_with strict) confirmation code recovery strict_alike
