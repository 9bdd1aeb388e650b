-- ===== src/Platform/Logging/Requests.antt =====
-- app/platform/logging/middleware.py, and `LoggingInterceptor._wrap` of app/grpcapi/interceptors.py:
-- the logging context of a request. The log is a parameter, and a duration is taken from a clock.
pub mod Laws
use dop_api.Base.{
  ℕ, ◌-◌, String, Option, none, some, [], ◌∷◌, nat_eq, string_eq, Dict, is_empty, if◌then◌else◌,
}
use dop_api.Platform.Context.{Scope}
use dop_api.Platform.Errors.{Error, done, raised}
use dop_api.Platform.Edge.{Edge}
use dop_api.Coreclient.Client.{Outside}

-- A line: its level, its message, and whether it has an error's text.
pub record Line : Type 0 where
  pub level : String
  pub message : String
  pub path : String
  pub method : String
  pub status : Option String
  pub error : Option String
  pub duration_ms : ℕ

-- What is read of the request: its own id, if it names one, and what the context is made of.
pub record Opened : Type 0 where
  pub request_id : String
  pub path : String
  pub method : String
  pub client_ip : String

pub record LoggedResponse : Type 0 where
  pub status_code : ℕ
  pub headers : Dict String

-- `str(exc)`, the clock in milliseconds, the log's writer, and `str` of a status.
pub record Journal (W : Type 0) : Type 0 where
  pub str_error : Error → String
  pub perf_counter : W → ℕ
  pub write : Line → W → W
  pub str_status : ℕ → String

abbrev pub request_scope : Scope → Opened → String → Scope
request_scope s req rid = record s {
  request_ctx =
      ("request_id", rid)
      ∷ ("path", req.path)
      ∷ ("method", req.method)
      ∷ ("client_ip", req.client_ip)
      ∷ [];
}

-- `request.headers.get("x-request-id") or uuid.uuid4().hex`.
abbrev pub own_id : {W : Type 0} → Outside W → Opened → W → String × W
own_id out req w =
    let fresh = out.uuid_hex w in if is_empty req.request_id then fresh else (req.request_id, w)

module _ {W : Type 0} (out : Outside W) (journal : Journal W) where
  abbrev pub failure_line : Opened → Option String → Error → ℕ → Line
  failure_line req status e ms = record {
    level = "error";
    message = "the request failed";
    path = req.path;
    method = req.method;
    status = status;
    error = some (journal.str_error e);
    duration_ms = ms;
  }

  abbrev pub request_line : Opened → String → ℕ → Line
  request_line req status ms = record {
    level = "info";
    message = "request";
    path = req.path;
    method = req.method;
    status = some status;
    error = none;
    duration_ms = ms;
  }

  -- `LoggingMiddleware.dispatch`.
  unfoldable pub dispatch : Opened → Edge W LoggedResponse → Edge W LoggedResponse
  dispatch req call_next s w =
      let (rid, w') = own_id out req w in
      let (answer, w'') = call_next (request_scope s req rid) w' in
      let ms = journal.perf_counter w'' - journal.perf_counter w' in
      elim answer [
        | raised e ↦ (raised e, journal.write (failure_line req none e ms) w'')
        | done resp ↦ (
          done (record resp { headers = ("x-request-id", rid) ∷ resp.headers }),
          journal.write (request_line req (journal.str_status resp.status_code) ms) w'',
        )
      ]

  -- `LoggingInterceptor._wrap`; the pair of texts is the call's status, as `str` writes it where the
  -- servicer failed and where it answered.
  unfoldable pub logging_wrap : {A : Type 0} → String × String → Opened → Edge W A → Edge W A
  logging_wrap (failed_status, status) req inner s w =
      let (rid, w') = own_id out req w in
      let (answer, w'') = inner (request_scope s req rid) w' in
      let ms = journal.perf_counter w'' - journal.perf_counter w' in
      elim answer [
        | raised e ↦ (raised e, journal.write (failure_line req (some failed_status) e ms) w'')
        | done a ↦ (done a, journal.write (request_line req status ms) w'')
      ]
