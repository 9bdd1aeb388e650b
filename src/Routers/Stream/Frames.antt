-- ===== src/Routers/Stream/Frames.antt =====
-- What a client of a stream reads, frame by frame.
use dop_api.Base.{
  ◌∙◌, ap, refl, ◌≡◌, ℕ, String, Option, none, some, List, [], ◌∷◌, ◌++◌, map, nat_eq, string_eq,
  or_text, is_empty, arith, if◌then◌else◌,
}
use mathlib.Core.Path.{subst}
use dop_api.Platform.Json.{Json, Fields, entry}
use dop_api.Platform.Errors.{Error, rpc, http, validation, failure, code_name}
use dop_api.Usecases.Stream.Yields.{Ending, finished, broken}
use dop_api.Routers.Stream.{ServerSentEvent, event_id, item_frame, closing, error_of, sse_events}
use dop_api.Routers.Stream.Laws.{last_id_of, sse_events-closing}

abbrev text_of : Option Json → Option String
text_of (some (Json.text id)) = if is_empty id then none else some id
text_of _ = none

-- An item's frame: the item under the stream's name, numbered by its own `id` where that is a text that
-- is not empty.
abbrev pub shown : String → Fields → ServerSentEvent
shown name item = record {
  retry = none;
  event = some name;
  id = text_of (entry "id" item);
  body = some item;
}

-- The last number that was shown, or the one before.
abbrev pub last_shown : String → List Fields → String
last_shown before [] = before
last_shown before (item ∷ items) = last_shown (or_text (text_of (entry "id" item)) before) items

abbrev pub code_of : Error → String
code_of (rpc exc) = code_name exc.code
code_of _ = "INTERNAL"

-- A frame that tells of an error: it has no number, and its body names the code and the id to resume
-- from.
pub record IsError (e : Error) (last_id : String) (frame : ServerSentEvent) : Type 0 where
  pub named : frame.event ≡ some "error"
  pub unnumbered : frame.id ≡ none
  pub body : Fields
  pub told : frame.body ≡ some body
  pub code : entry "code" body ≡ some (Json.text (code_of e))
  pub resume : entry "since_event_id" body ≡ some (Json.text last_id)

abbrev pub IsClosed : Ending → String → List ServerSentEvent → Type 0
IsClosed finished last_id frames = frames ≡ []
IsClosed (broken e) last_id frames =
    (frame : ServerSentEvent) × (frames ≡ frame ∷ []) × IsError e last_id frame

event_id-text_of : (item : Fields) → event_id item ≡ text_of (entry "id" item)
event_id-text_of Fields.end = refl
event_id-text_of (Fields.field k (Json.text s) rest) = ground (arith, event_id-text_of rest)
event_id-text_of (Fields.field k Json.null rest) = ground (arith, event_id-text_of rest)
event_id-text_of (Fields.field k (Json.bool b) rest) = ground (arith, event_id-text_of rest)
event_id-text_of (Fields.field k (Json.num n) rest) = ground (arith, event_id-text_of rest)
event_id-text_of (Fields.field k (Json.list vs) rest) = ground (arith, event_id-text_of rest)
event_id-text_of (Fields.field k (Json.opaque vs) rest) = ground (arith, event_id-text_of rest)
event_id-text_of (Fields.field k (Json.dict fs) rest) = ground (arith, event_id-text_of rest)

frames-shown :
    (name : String) (items : List Fields) → map (item_frame name) items ≡ map (shown name) items
frames-shown name [] = refl
frames-shown name (item ∷ items) = cc (event_id-text_of item, frames-shown name items)

last_id_of-last_shown :
    (before : String) (items : List Fields) → last_id_of before items ≡ last_shown before items
last_id_of-last_shown before [] = refl
last_id_of-last_shown before (item ∷ items) =
    ap (λ id. last_id_of (or_text id before) items) (event_id-text_of item)
    ∙ last_id_of-last_shown (or_text (text_of (entry "id" item)) before) items

closing-IsClosed :
    (ending : Ending) (last_id : String) → IsClosed ending last_id (closing ending last_id)
unfolding error_of
closing-IsClosed finished last_id = refl
closing-IsClosed (broken (rpc e)) last_id = (
  _,
  refl,
  record { named = refl; unnumbered = refl; body = _; told = refl; code = refl; resume = refl },
)
closing-IsClosed (broken (http e)) last_id = (
  _,
  refl,
  record { named = refl; unnumbered = refl; body = _; told = refl; code = refl; resume = refl },
)
closing-IsClosed (broken (validation e)) last_id = (
  _,
  refl,
  record { named = refl; unnumbered = refl; body = _; told = refl; code = refl; resume = refl },
)
closing-IsClosed (broken (failure e)) last_id = (
  _,
  refl,
  record { named = refl; unnumbered = refl; body = _; told = refl; code = refl; resume = refl },
)

-- No item is lost and no error escapes: the frames are one with the time to wait before a retry, one
-- for each item in the source's order, under the stream's name and numbered by the item's own id, and
-- nothing more where the source ended by itself. Where it broke off, whatever the exception, one last
-- frame named "error" has the code and the last id that was shown, to resume from.
pub sse_events-IsClosed :
    (retry_ms : ℕ) (name : String) (items : List Fields) (ending : Ending)
    → (last : List ServerSentEvent) × (sse_events retry_ms name items ending
        ≡ record { retry = some retry_ms; event = none; id = none; body = none }
          ∷ (map (shown name) items ++ last))
      × IsClosed ending (last_shown "" items) last
sse_events-IsClosed retry_ms name items ending =
    let last = closing ending (last_id_of "" items) in
    (
      last,
      sse_events-closing retry_ms name items ending
          ∙ ap
              (λ fs.
                record { retry = some retry_ms; event = none; id = none; body = none }
                ∷ (fs ++ last))
              (frames-shown name items),
      subst (λ id. IsClosed ending id last) (last_id_of-last_shown "" items)
          (closing-IsClosed ending (last_id_of "" items)),
    )
