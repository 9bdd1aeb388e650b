-- ===== src/Tests/Stream.antt =====
-- The theorems about a stream of events at a concrete source.
use dop_api.Base.{
  sym, ◌∙◌, ap, refl, ◌==◌, if◌then◌else◌, is_empty, ◌≡◌, String, some, List, [], ◌∷◌, ◌++◌, map,
  nat_eq, string_eq, or_text,
}
use mathlib.Core.Path.{subst}
use mathlib.Core.List.{nil≢cons, head-eq_of_cons-eq, tail-eq_of_cons-eq}
use dop_api.Routers.Stream.{cursor, event_id, opening, sse_events, ServerSentEvent}
use dop_api.Platform.Json.{Json, Fields, end, field}
use dop_api.Platform.Errors.{AioRpcError, rpc, unavailable}
use dop_api.Usecases.Stream.Yields.{broken}
use dop_api.Routers.Stream.Laws.{last_id_of}
use dop_api.Routers.Stream.Frames.{shown, IsClosed, sse_events-IsClosed}
use dop_api.Routers.Stream.Resume.{Feed, session, Stands, IsReplay, session-resumes}

abbrev event : String → Fields
event id = field "id" (Json.text id) (field "type" (Json.text "created") end)

abbrev events : List Fields
events = event "e1" ∷ event "e2" ∷ event "" ∷ []

abbrev slow : AioRpcError
slow = record { code = unavailable; details = some "10.0.0.7: subscriber too slow" }

sse_events-IsClosed_example :
    (last : List ServerSentEvent) × (sse_events 3000 "event" events (broken (rpc slow))
      ≡ opening 3000 ∷ (map (shown "event") events ++ last))
    × IsClosed (broken (rpc slow)) "e2" last
sse_events-IsClosed_example = sse_events-IsClosed 3000 "event" events (broken (rpc slow))

abbrev two : List Fields
two = event "e1" ∷ event "e2" ∷ []

-- A core that keeps two events: it breaks off after the first one that it sends.
abbrev one_by_one : Feed
one_by_one at =
    if is_empty at
    then (event "e1" ∷ [], broken (rpc slow))
    else if at == "e1"
    then (event "e2" ∷ [], broken (rpc slow))
    else ([], broken (rpc slow))

one_by_one-next :
    (earlier later : List Fields)
    → two ≡ earlier ++ later
    → (rest : List Fields) × (later ≡ (one_by_one (last_id_of "" earlier)).0 ++ rest)
one_by_one-next [] later split = (event "e2" ∷ [], sym split)
one_by_one-next (x ∷ []) later split = (
  [],
  sym (tail-eq_of_cons-eq split)
      ∙ ap (λ i. (one_by_one (last_id_of "" (i ∷ []))).0 ++ []) (head-eq_of_cons-eq split),
)
one_by_one-next (x ∷ y ∷ []) later split =
    let others = tail-eq_of_cons-eq split in
    (
      [],
      sym (tail-eq_of_cons-eq others)
          ∙ ap (λ i. (one_by_one (last_id_of (or_text (event_id i) "") (event "e2" ∷ []))).0 ++ [])
              (head-eq_of_cons-eq split)
          ∙ ap (λ i. (one_by_one (last_id_of (or_text (event_id x) "") (i ∷ []))).0 ++ [])
              (head-eq_of_cons-eq others),
    )
one_by_one-next (x ∷ y ∷ z ∷ earlier) later split =
    absurd (nil≢cons (tail-eq_of_cons-eq (tail-eq_of_cons-eq split)))

one_by_one-IsReplay : IsReplay two one_by_one
one_by_one-IsReplay at later (earlier, split, stands) =
    subst (λ id. (rest : List Fields) × (later ≡ (one_by_one id).0 ++ rest)) (sym stands)
      (one_by_one-next earlier later split)

session-resumes_example :
    let (items, last) = session 3000 "event" "" (one_by_one ∷ one_by_one ∷ []) "" in
    (rest : List Fields) × (two ≡ items ++ rest) × Stands two (cursor last "") rest
session-resumes_example =
    session-resumes 3000 "event" "" refl two (one_by_one ∷ one_by_one ∷ []) "" two
      (one_by_one-IsReplay, (one_by_one-IsReplay, tt)) ([], refl, refl)
