-- ===== src/Routers/Stream/Endpoints/Laws.antt =====
-- The stream of a demand has no cursor.
use dop_api.Base.{
  sym, refl, ◌≡◌, inl, inr, ℕ, String, none, List, [], ◌∷◌, map, nat_eq, string_eq, All, is_empty,
  arith, Bool-cases, Option-cases,
}
use mathlib.Core.Path.{subst}
use dop_api.Platform.Context.{Scope}
use dop_api.Platform.Errors.{rpc, http, validation, failure, Result-cases, done}
use dop_api.Platform.Decorator.{account_scoped}
use dop_api.Coreclient.Client.{Outside, metadata}
use dop_api.Usecases.Stream.Yields.{Ending, finished, broken, Source}
use dop_api.Usecases.Stream.{
  StreamEvent, DemandEvent, StreamStub, demand_event, relayed, watched, watch_demand,
}
use dop_api.Routers.Stream.{ServerSentEvent, sse_events, frames_from, closing, error_of}
use dop_api.Routers.Stream.Endpoints.{dump_event, response, stream_demand}

abbrev pub NoId : ServerSentEvent → Type 0
NoId e = e.id ≡ none

closing-NoId : (ending : Ending) (last_id : String) → All NoId (closing ending last_id)
unfolding error_of
closing-NoId finished last_id = tt
closing-NoId (broken (rpc e)) last_id = (refl, tt)
closing-NoId (broken (http e)) last_id = (refl, tt)
closing-NoId (broken (validation e)) last_id = (refl, tt)
closing-NoId (broken (failure e)) last_id = (refl, tt)

frames-NoId :
    (str : ℕ → String) (demand_id : String) (evs : List DemandEvent) (ending : Ending)
    (last_id : String)
    → All NoId (
        frames_from "event" last_id
          (map (dump_event str) (map (demand_event demand_id) evs))
          ending)
unfolding frames_from
frames-NoId str demand_id [] ending last_id = closing-NoId ending last_id
frames-NoId str demand_id (ev ∷ evs) ending last_id =
    (refl, frames-NoId str demand_id evs ending last_id)

module _ {W : Type 0} (out : Outside W) (stub : StreamStub W) (demand_id : String) (s : Scope)
    (w : W) where
  opened_events :
      (source : Source StreamEvent) (v : W)
      → watch_demand out stub demand_id s w ≡ (done source, v)
      → (given : Source DemandEvent) × (source ≡ relayed (demand_event demand_id) given)
  unfolding watch_demand account_scoped watched
  opened_events source v opens = elim (Option-cases s.auth_ctx) [
    | inl nobody ↦ absurd (ground arith)
    | inr (ctx, here) ↦ elim (Bool-cases (is_empty ctx.account_id)) [
      | inl none_active ↦ absurd (ground arith)
      | inr active ↦
          let carrying = metadata out s w in
          elim (Result-cases carrying.0) [
            | inr (e, unsigned) ↦ absurd (ground arith)
            | inl (md, signed) ↦ ((stub.watch_demand md demand_id carrying.1).0, ground arith)
          ]
    ]
  ]

  -- No frame of a demand's stream carries an id, whatever the core sends and however it ends: a client
  -- that reconnects is promised no place to go on from.
  stream_demand-NoId :
      (retry_ms : ℕ) (str : ℕ → String) (after : W) (frames : List ServerSentEvent)
      → stream_demand out stub retry_ms str demand_id s w ≡ (done frames, after)
      → All NoId frames
  unfolding stream_demand sse_events
  stream_demand-NoId retry_ms str after frames ends =
      let opening_it = watch_demand out stub demand_id s w in
      elim (Result-cases opening_it.0) [
        | inr (e, refused) ↦ absurd (ground arith)
        | inl (source, opened) ↦
            let given = opened_events source opening_it.1 (ground arith) in
            let shown : frames
                ≡ response retry_ms "event" (dump_event str)
                    (relayed (demand_event demand_id) given.0) =
              ground (arith, given.1) in
            subst (λ fs. All NoId fs) (sym shown)
              (refl, frames-NoId str demand_id given.0.0 given.0.1 "")
      ]
