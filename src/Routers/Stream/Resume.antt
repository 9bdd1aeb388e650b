-- ===== src/Routers/Stream/Resume.antt =====
-- The resuming of a stream of app/routers/stream.py: a browser reads one connection after the other,
-- each from the id that it saw last.
use dop_api.Base.{
  append_assoc, ◌∙◌, ap, sym, refl, ◌≡◌, ℕ, Bool, false, String, Option, none, some, List, [], ◌∷◌,
  ◌++◌, map, nat_eq, string_eq, eq_refl, or_text, ◌==◌, All, if◌then◌else◌, arith,
}
use mathlib.Core.Path.{subst}
use dop_api.Platform.Json.{Fields}
use dop_api.Platform.Errors.{rpc, http, validation, failure}
use dop_api.Usecases.Stream.Yields.{Ending, finished, broken, Source}
use dop_api.Routers.Stream.{
  ServerSentEvent, cursor, event_id, item_frame, closing, error_of, sse_events,
}
use dop_api.Routers.Stream.Laws.{last_id_of, sse_events-closing}

abbrev body_of : Option Fields → List Fields → List Fields
body_of none rest = rest
body_of (some item) rest = item ∷ rest

abbrev is_named : Option String → String → Bool
is_named none name = false
is_named (some event) name = event == name

-- The bodies of the frames of the given name, in their order.
abbrev pub delivered : String → List ServerSentEvent → List Fields
delivered name [] = []
delivered name (frame ∷ frames) =
    let rest = delivered name frames in
    if is_named frame.event name then body_of frame.body rest else rest

-- The last id that the frames carry, or the one that was known before.
abbrev pub seen_id : String → List ServerSentEvent → String
seen_id last [] = last
seen_id last (frame ∷ frames) = seen_id (or_text frame.id last) frames

-- What the core answers at one connection, for the cursor that it is given.
abbrev pub Feed : Type 0
Feed = String → Source Fields

module _ (retry_ms : ℕ) (name since : String) where
  -- One connection after the other, each with the id that the browser saw last as its header and the
  -- parameter of the first: what was delivered, and the id that was seen last.
  abbrev pub session : List Feed → String → List Fields × String
  session [] last = ([], last)
  session (feed ∷ feeds) last =
      let (items, ending) = feed (cursor last since) in
      let frames = sse_events retry_ms name items ending in
      let (later, seen) = session feeds (seen_id last frames) in
      (delivered name frames ++ later, seen)

-- The cursor stands before `later`: it is the last id of what comes before, empty at the start.
abbrev pub Stands : List Fields → String → List Fields → Type 0
Stands log at later =
    (earlier : List Fields) × (log ≡ earlier ++ later) × (at ≡ last_id_of "" earlier)

-- What a replay sends is what comes next in the log, as far as it gets.
abbrev pub IsReplay : List Fields → Feed → Type 0
IsReplay log feed =
    (at : String) (later : List Fields)
    → Stands log at later
    → (rest : List Fields) × (later ≡ (feed at).0 ++ rest)

last_id_of-append :
    (last : String) (earlier items : List Fields)
    → last_id_of last (earlier ++ items) ≡ last_id_of (last_id_of last earlier) items
last_id_of-append last [] items = refl
last_id_of-append last (item ∷ earlier) items =
    last_id_of-append (or_text (event_id item) last) earlier items

cursor-or_text :
    (id : Option String) (last since : String)
    → cursor (or_text id last) since ≡ or_text id (cursor last since)
cursor-or_text none last since = refl
cursor-or_text (some id) last since = ground arith

cursor-last_id_of :
    (last since : String) (items : List Fields)
    → cursor (last_id_of last items) since ≡ last_id_of (cursor last since) items
cursor-last_id_of last since [] = refl
cursor-last_id_of last since (item ∷ items) =
    cursor-last_id_of (or_text (event_id item) last) since items
    ∙ ap (λ at. last_id_of at items) (cursor-or_text (event_id item) last since)

delivered-closing :
    (name last_id : String) (ending : Ending)
    → "error" == name ≡ false
    → delivered name (closing ending last_id) ≡ []
unfolding error_of
delivered-closing name last_id finished other = refl
delivered-closing name last_id (broken (rpc e)) other = ground arith
delivered-closing name last_id (broken (http e)) other = ground arith
delivered-closing name last_id (broken (validation e)) other = ground arith
delivered-closing name last_id (broken (failure e)) other = ground arith

delivered-frames :
    (name : String) (items : List Fields) (ending : Ending) (last_id : String)
    → "error" == name ≡ false
    → delivered name (map (item_frame name) items ++ closing ending last_id) ≡ items
delivered-frames name [] ending last_id other = delivered-closing name last_id ending other
delivered-frames name (item ∷ items) ending last_id other =
    ground (arith, delivered-frames name items ending last_id other, eq_refl name)

seen_id-closing :
    (last last_id : String) (ending : Ending) → seen_id last (closing ending last_id) ≡ last
unfolding error_of
seen_id-closing last last_id finished = refl
seen_id-closing last last_id (broken (rpc e)) = refl
seen_id-closing last last_id (broken (http e)) = refl
seen_id-closing last last_id (broken (validation e)) = refl
seen_id-closing last last_id (broken (failure e)) = refl

seen_id-frames :
    (name last : String) (items : List Fields) (ending : Ending) (last_id : String)
    → seen_id last (map (item_frame name) items ++ closing ending last_id) ≡ last_id_of last items
seen_id-frames name last [] ending last_id = seen_id-closing last last_id ending
seen_id-frames name last (item ∷ items) ending last_id =
    seen_id-frames name (or_text (event_id item) last) items ending last_id

module _ (retry_ms : ℕ) (name since : String) (other : "error" == name ≡ false) where
  delivered-sse_events :
      (items : List Fields) (ending : Ending)
      → delivered name (sse_events retry_ms name items ending) ≡ items
  delivered-sse_events items ending =
      ap (delivered name) (sse_events-closing retry_ms name items ending)
      ∙ delivered-frames name items ending (last_id_of "" items) other

  seen_id-sse_events :
      (last : String) (items : List Fields) (ending : Ending)
      → seen_id last (sse_events retry_ms name items ending) ≡ last_id_of last items
  seen_id-sse_events last items ending =
      ap (seen_id last) (sse_events-closing retry_ms name items ending)
      ∙ seen_id-frames name last items ending (last_id_of "" items)

  -- The cursor of the next connection stands behind what this one delivered.
  next-Stands :
      (log items rest : List Fields) (ending : Ending) (last : String)
      → Stands log (cursor last since) (items ++ rest)
      → Stands log (cursor (seen_id last (sse_events retry_ms name items ending)) since) rest
  next-Stands log items rest ending last (earlier, split, at) = (
    earlier ++ items,
    split ∙ sym (append_assoc earlier items rest),
    ap (λ id. cursor id since) (seen_id-sse_events last items ending)
        ∙ cursor-last_id_of last since items
        ∙ ap (λ id. last_id_of id items) at
        ∙ sym (last_id_of-append "" earlier items),
  )

  -- However often a stream breaks off, a browser that comes back with the id that it saw last loses no
  -- item and gets none twice: what its connections delivered is what comes next in the log, from
  -- the place where it began, and its cursor stands before all the rest. The stream's name is not the
  -- one of the error frames, and each connection gets from the core a piece of the log, from its
  -- cursor on.
  pub session-resumes :
      (log : List Fields) (feeds : List Feed) (last : String) (later : List Fields)
      → All (IsReplay log) feeds
      → Stands log (cursor last since) later
      → let (items, seen) = session retry_ms name since feeds last in
        (rest : List Fields) × (later ≡ items ++ rest) × Stands log (cursor seen since) rest
  session-resumes log [] last later replays stands = (later, refl, stands)
  session-resumes log (feed ∷ feeds) last later (replay, replays) stands =
      let (items, ending) = feed (cursor last since) in
      let (rest, sent) = replay (cursor last since) later stands in
      let next =
        next-Stands log items rest ending last
          (subst (Stands log (cursor last since)) sent stands) in
      let (left, split, ends) =
        session-resumes log feeds (seen_id last (sse_events retry_ms name items ending)) rest
          replays next in
      let more =
        (session retry_ms name since feeds
          (seen_id last (sse_events retry_ms name items ending))).0 in
      (
        left,
        sent
            ∙ ap (λ xs. items ++ xs) split
            ∙ ap (λ xs. xs ++ (more ++ left)) (sym (delivered-sse_events items ending))
            ∙ sym (append_assoc (delivered name (sse_events retry_ms name items ending)) more left),
        ends,
      )
