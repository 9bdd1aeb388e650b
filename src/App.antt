-- ===== src/App.antt =====
-- app/main.py: the stack of the HTTP port and the life of the process. The headers of CORS and the
-- instrumentation are calls of libraries.
pub mod Laws
pub mod Lifespan
use dop_api.Base.{String, Bool, Option, [], nat_eq, string_eq}
use dop_api.Platform.Context.{Principal}
use dop_api.Platform.Errors.{Error, HttpException, done, raised, grpc_exception_handler}
use dop_api.Platform.Edge.{Edge}
use dop_api.Platform.Firebase.{Verdict}
use dop_api.Platform.Routes.{HttpRequest}
use dop_api.Platform.Auth.{Response, json, handled, Resolver}
use dop_api.Platform.Auth
use dop_api.Platform.Logging.Requests.{Opened, Journal, LoggedResponse}
use dop_api.Platform.Logging.Requests
use dop_api.Coreclient.Client.{Outside}

-- A JSON answer, as far as the logging middleware reads it.
abbrev pub logged : Response LoggedResponse → LoggedResponse
logged (json status detail) = record { status_code = status; headers = [] }
logged (handled resp) = resp

module _ {W : Type 0} (http_exception_handler : HttpException → LoggedResponse) where
  -- A route behind `add_exception_handler`: an error of the core is answered by ours, a refusal by
  -- the framework's own handler, and anything else is raised to the middlewares.
  unfoldable pub routed : Edge W LoggedResponse → Edge W (Response LoggedResponse)
  routed handler s w =
      let (answer, w') = handler s w in
      elim answer [
        | done resp ↦ (done (handled resp), w')
        | raised e ↦ elim e [
          | Error.rpc exc ↦
              let (status, detail) = grpc_exception_handler exc in (done (json status detail), w')
          | Error.http exc ↦ (done (handled (http_exception_handler exc)), w')
          | Error.validation text ↦ (raised (Error.validation text), w')
          | Error.failure text ↦ (raised (Error.failure text), w')
        ]
      ]

  -- `create_app`: the middleware that was added last stands outermost, so the logging opens the
  -- context and the authentication fills in the caller.
  unfoldable pub served :
      Outside W
      → Journal W
      → (String → W → Verdict Principal × W)
      → Option (Resolver W)
      → (HttpRequest → Bool)
      → (HttpRequest → Bool)
      → Opened
      → HttpRequest
      → Edge W LoggedResponse
      → Edge W LoggedResponse
  served out journal verify resolver is_public is_token_only opened req handler =
      Requests.dispatch out journal opened λ s w.
        let (answer, w') =
          Auth.dispatch verify resolver is_public is_token_only req (routed handler) s w in
        elim answer [ done resp ↦ (done (logged resp), w') | raised e ↦ (raised e, w') ]
