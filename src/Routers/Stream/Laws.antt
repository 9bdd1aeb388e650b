-- ===== src/Routers/Stream/Laws.antt =====
-- What a client of a stream may rely on.
use dop_api.Base.{
  ◌∙◌, ap, sym, refl, ◌≡◌, ℕ, ◌≤◌, String, List, [], ◌∷◌, ◌++◌, map, nat_eq, string_eq, or_text,
  arith,
}
use dop_api.Platform.Json.{Fields}
use dop_api.Platform.Errors.{AioRpcError, rpc, http_status_for, detail_for}
use dop_api.Usecases.Stream.Yields.{Ending, broken}
use dop_api.Routers.Stream.{
  opening, error_of, event_id, item_frame, closing, frames_from, sse_events,
}

-- The last id of a list of items, or the given one if none of them has one.
abbrev pub last_id_of : String → List Fields → String
last_id_of before [] = before
last_id_of before (item ∷ items) = last_id_of (or_text (event_id item) before) items

frames_from-closing :
    (name last_id : String) (items : List Fields) (ending : Ending)
    → frames_from name last_id items ending
      ≡ map (item_frame name) items ++ closing ending (last_id_of last_id items)
unfolding frames_from
frames_from-closing name last_id [] ending = refl
frames_from-closing name last_id (item ∷ items) ending =
    ap (λ r. item_frame name item ∷ r)
      (frames_from-closing name (or_text (event_id item) last_id) items ending)

-- No item is lost and no error escapes: the frames are the opening, one frame for each item in the
-- source's order, and, if the source broke off, a last error frame with the id of the last item
-- that had one, to resume from.
pub sse_events-closing :
    (retry_ms : ℕ) (name : String) (items : List Fields) (ending : Ending)
    → sse_events retry_ms name items ending
      ≡ opening retry_ms ∷ (map (item_frame name) items ++ closing ending (last_id_of "" items))
unfolding sse_events
sse_events-closing retry_ms name items ending =
    ap (λ r. opening retry_ms ∷ r) (frames_from-closing name "" items ending)

error_of-quiet :
    (e f : AioRpcError) (last_id : String)
    → e.code ≡ f.code
    → 500 ≤ http_status_for e.code
    → error_of e last_id ≡ error_of f last_id
unfolding error_of detail_for
error_of-quiet e f last_id same big = ground arith

-- Two core errors of one code with a status of 500 or more break a stream off with the same
-- frames: nothing of the core's details gets out in the middle of a stream either.
sse_events-quiet :
    (retry_ms : ℕ) (name : String) (items : List Fields) (e f : AioRpcError)
    → e.code ≡ f.code
    → 500 ≤ http_status_for e.code
    → sse_events retry_ms name items (broken (rpc e))
      ≡ sse_events retry_ms name items (broken (rpc f))
sse_events-quiet retry_ms name items e f same big =
    sse_events-closing retry_ms name items (broken (rpc e))
    ∙ ap (λ last. opening retry_ms ∷ (map (item_frame name) items ++ (last ∷ [])))
        (error_of-quiet e f (last_id_of "" items) same big)
    ∙ sym (sse_events-closing retry_ms name items (broken (rpc f)))
