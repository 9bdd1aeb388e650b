-- ===== src/Grpcapi/Interceptors/Logging.antt =====
-- app/grpcapi/interceptors.py: the streaming half of `LoggingInterceptor`.
use dop_api.Base.{ℕ, ◌-◌, String, Option, none, some, nat_eq, string_eq, length}
use dop_api.Platform.Errors.{Error}
use dop_api.Coreclient.Client.{Outside}
use dop_api.Platform.Logging.Requests.{Opened, request_scope, own_id}
use dop_api.Usecases.Stream.Yields.{Ending, finished, broken}
use dop_api.Grpcapi.Interceptors.Streams.{Generator}

-- A line: "stream opened", "the stream failed" or "stream", the last two with what was sent.
pub record StreamLine : Type 0 where
  pub message : String
  pub path : String
  pub status : Option String
  pub error : Option String
  pub sent : ℕ
  pub duration_ms : ℕ

-- `str(exc)`, the clock, the log's writer, and `str` of the call's status after each end.
pub record StreamJournal (W : Type 0) : Type 0 where
  pub str_error : Error → String
  pub perf_counter : W → ℕ
  pub write : StreamLine → W → W
  pub str_status : Ending → String

module _ {W : Type 0} (out : Outside W) (journal : StreamJournal W) where
  abbrev pub opening_line : Opened → StreamLine
  opening_line req = record {
    message = "stream opened";
    path = req.path;
    status = none;
    error = none;
    sent = 0;
    duration_ms = 0;
  }

  abbrev pub closing_line : Opened → Ending → ℕ → ℕ → StreamLine
  closing_line req finished sent ms = record {
    message = "stream";
    path = req.path;
    status = some (journal.str_status finished);
    error = none;
    sent = sent;
    duration_ms = ms;
  }
  closing_line req (broken e) sent ms = record {
    message = "the stream failed";
    path = req.path;
    status = some (journal.str_status (broken e));
    error = some (journal.str_error e);
    sent = sent;
    duration_ms = ms;
  }

  -- `LoggingInterceptor._wrap_stream`, for a stream that its client takes to the end.
  unfoldable pub logging_wrap_stream : {A : Type 0} → Opened → Generator W A → Generator W A
  logging_wrap_stream req inner s w =
      let (rid, w') = own_id out req w in
      let opened = journal.write (opening_line req) w' in
      let (source, w'') = inner (request_scope s req rid) opened in
      let ms = journal.perf_counter w'' - journal.perf_counter w' in
      (source, journal.write (closing_line req source.1 (length source.0) ms) w'')
