-- ===== src/Routers/Stream.antt =====
-- app/routers/stream.py: a use case's stream as server-sent events. A source is the items that it
-- yields and how it ends; the body of a frame is the value that `_json` writes to its data.
pub mod Laws
pub mod Resume
pub mod Frames
pub mod Endpoints
use dop_api.Base.{
  ℕ, String, Bool, true, false, Option, none, some, List, [], ◌∷◌, ◌&&◌, ◌==◌, nat_eq, string_eq,
  is_empty, or_else, or_text, leb, if◌then◌else◌,
}
use dop_api.Base.Int.{pos}
use dop_api.Usecases.Stream.Yields.{Ending, finished, broken}
use dop_api.Platform.Json.{Json, Fields, end, field}
use dop_api.Platform.Errors.{
  StatusCode, AioRpcError, rpc, unavailable, deadline_exceeded, resource_exhausted, aborted,
  http_status_for, detail_for, code_name,
}

-- `ServerSentEvent`, with the arguments that are given.
pub record ServerSentEvent : Type 0 where
  pub retry : Option ℕ
  pub event : Option String
  pub id : Option String
  pub body : Option Fields

-- `_RETRYABLE`.
abbrev pub is_retryable : StatusCode → Bool
is_retryable unavailable = true
is_retryable deadline_exceeded = true
is_retryable resource_exhausted = true
is_retryable aborted = true
is_retryable _ = false

abbrev pub reconnect : String
reconnect = "the connection was closed by the core; reconnect with since_event_id"

-- `_opening`.
abbrev pub opening : ℕ → ServerSentEvent
opening retry_ms = record { retry = some retry_ms; event = none; id = none; body = none }

abbrev pub error_frame : ℕ → String → String → Bool → String → ServerSentEvent
error_frame status code detail retryable last_id = record {
  retry = none;
  event = some "error";
  id = none;
  body = some (
      field "status" (Json.num (pos status)) (
        field "code" (Json.text code) (
          field "detail" (Json.text detail) (
            field "retryable" (Json.bool retryable)
              (field "since_event_id" (Json.text last_id) end)))));
}

abbrev pub detail_of : AioRpcError → String
detail_of exc =
    let status = http_status_for exc.code in
    if is_retryable exc.code && leb 500 status then reconnect else detail_for exc status

-- `_error`.
pub error_of : AioRpcError → String → ServerSentEvent
error_of exc last_id =
    error_frame (http_status_for exc.code) (code_name exc.code) (detail_of exc)
      (is_retryable exc.code) last_id

abbrev pub id_text : Json → Option String
id_text (Json.text s) = if is_empty s then none else some s
id_text _ = none

-- `data.get("id") or None`, for an id that is text.
abbrev pub event_id : Fields → Option String
event_id end = none
event_id (field k v rest) = let other = event_id rest in if k == "id" then id_text v else other

abbrev pub item_frame : String → Fields → ServerSentEvent
item_frame name item = record {
  retry = none;
  event = some name;
  id = event_id item;
  body = some item;
}

abbrev pub closing : Ending → String → List ServerSentEvent
closing finished last_id = []
closing (broken (rpc exc)) last_id = error_of exc last_id ∷ []
closing (broken e) last_id = error_frame 500 "INTERNAL" "internal error" false last_id ∷ []

-- The loop of `_sse_events`, from the last id on.
unfoldable pub frames_from : String → String → List Fields → Ending → List ServerSentEvent
frames_from name last_id [] ending = closing ending last_id
frames_from name last_id (item ∷ items) ending =
    item_frame name item ∷ frames_from name (or_text (event_id item) last_id) items ending

-- `_sse_events`.
unfoldable pub sse_events : ℕ → String → List Fields → Ending → List ServerSentEvent
sse_events retry_ms name items ending = opening retry_ms ∷ frames_from name "" items ending

-- `_cursor`.
abbrev pub cursor : String → String → String
cursor last_event_id since_event_id = or_else last_event_id since_event_id
