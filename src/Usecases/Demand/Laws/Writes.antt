-- ===== src/Usecases/Demand/Laws/Writes.antt =====
-- Who may change a demand, what its screen shows, and whose words a message is.
use dop_api.Platform.Decorator.Laws.{IsAllowed, role_missing, role_present}
use dop_api.Base.{
  sym, ◌∙◌, String, true, false, none, some, ◌≡◌, inl, inr, refl, is_empty, get, arith,
}
use dop_api.Platform.Context.{Scope, AuthContext, has_role}
use dop_api.Platform.Errors.{done, refuse, Result-cases}
use dop_api.Platform.Decorator.{writers}
use dop_api.Coreclient.Client.{Outside, Metadata, idempotency, metadata_for}
use dop_api.Coreclient.Client.Laws.{metadata_for_carries}
use dop_api.Usecases.Demand.Views.{author_of}
use dop_api.Usecases.Demand.{
  start_demand, advance_stage, decide_gate, create_thread, post_message, post_as, post_here,
  publish_finding,
}
use dop_api.Usecases.Demand.Messages.{PbMessage, DemandStub}
use dop_api.Usecases.Demand.Models.{
  Message, NewDemand, StageTransition, GateDecision, NewThread, NewMessage, NewFinding,
}

module _ {W : Type 0} (out : Outside W) (stub : DemandStub W) (s : Scope) (w : W) where
  -- A viewer, or anybody else without one of the writing roles, starts no demand, moves no stage,
  -- decides no gate, opens no thread, posts no message and publishes no finding: each call is
  -- refused with a 403 and the core is not called.
  viewer_refused :
      (ctx : AuthContext)
      → s.auth_ctx ≡ some ctx
      → is_empty ctx.account_id ≡ false
      → has_role ctx writers ≡ false
      → (a : NewDemand) (b : StageTransition) (c : GateDecision) (d : NewThread) (e : NewMessage)
        (f : NewFinding) (id stage key kind : String)
      → (start_demand out stub a key s w ≡ (refuse 403 "Insufficient permission", w))
        × (advance_stage out stub id stage b key s w ≡ (refuse 403 "Insufficient permission", w))
        × (decide_gate out stub id stage c key s w ≡ (refuse 403 "Insufficient permission", w))
        × (create_thread out stub id d key s w ≡ (refuse 403 "Insufficient permission", w))
        × (post_message out stub id e key kind s w ≡ (refuse 403 "Insufficient permission", w))
        × (publish_finding out stub id f key s w ≡ (refuse 403 "Insufficient permission", w))
  unfolding start_demand advance_stage decide_gate create_thread post_message publish_finding
  viewer_refused ctx here account lacks a b c d e f id stage key kind = (
    role_missing writers _ s w ctx here account lacks,
    role_missing writers _ s w ctx here account lacks,
    role_missing writers _ s w ctx here account lacks,
    role_missing writers _ s w ctx here account lacks,
    role_missing writers _ s w ctx here account lacks,
    role_missing writers _ s w ctx here account lacks,
  )

  -- The call by which a message reached the core.
  pub record IsPosted (ctx : AuthContext) (thread_id text kind : String) (w' : W) : Type 0 where
    pub md : Metadata
    pub key : String
    pub before : W
    pub answer : PbMessage
    pub sent :
        stub.post_message md
          (record { thread_id = thread_id; text = text; idempotency_key = key })
          before
        ≡ (done answer, w')
    pub author : get md "x-actor-kind" ≡ some kind
    pub user : get md "x-actor-id" ≡ some ctx.user_id
    pub account : get md "x-account-id" ≡ some ctx.account_id
    pub tokenless : get md "authorization" ≡ none

  post_as-IsPosted :
      (ctx : AuthContext) (thread_id key kind : String) (body : NewMessage) (m : Message) (w' : W)
      → is_empty ctx.account_id ≡ false
      → post_as out stub ctx thread_id body key kind s w ≡ (done m, w')
      → IsPosted ctx thread_id body.text kind w'
  unfolding post_as
  post_as-IsPosted ctx thread_id key kind body m w' account e =
      let first = idempotency out key s w in
      elim (Result-cases first.0) [
        | inr (exc, failed) ↦ absurd (ground arith)
        | inl (fresh, drawn) ↦
            let second = metadata_for out (author_of ctx kind) s first.1 in
            elim (Result-cases second.0) [
              | inr (exc, failed) ↦ absurd (ground arith)
              | inl (md, made) ↦
                  let third =
                    stub.post_message md
                      (record { thread_id = thread_id; text = body.text; idempotency_key = fresh })
                      second.1 in
                  elim (Result-cases third.0) [
                    | inr (exc, failed) ↦ absurd (ground arith)
                    | inl (answer, came) ↦
                        let facts =
                          metadata_for_carries out (author_of ctx kind) s first.1 second.1 md
                            (ground arith) (ground arith) in
                        record {
                          md = md;
                          key = fresh;
                          before = second.1;
                          answer = answer;
                          sent = ground arith;
                          author = facts.3;
                          user = facts.2;
                          account = facts.1;
                          tokenless = facts.0;
                        }
                  ]
            ]
      ]

  -- What a posted message reached the core as: the text as it was given, in the thread that was
  -- named, under the name of the signed-in user and account and the kind of author given, and
  -- without the person's token.
  pub post_message-IsPosted :
      (ctx : AuthContext) (thread_id key kind : String) (body : NewMessage) (m : Message) (w' : W)
      → s.auth_ctx ≡ some ctx
      → is_empty ctx.account_id ≡ false
      → has_role ctx writers ≡ true
      → post_message out stub thread_id body key kind s w ≡ (done m, w')
      → IsPosted ctx thread_id body.text kind w'
  unfolding post_message
  post_message-IsPosted ctx thread_id key kind body m w' here account role e =
      let allowed : IsAllowed writers s = record {
        ctx = ctx;
        here = here;
        account = account;
        role = role;
      } in
      let runs = role_present writers (post_here out stub thread_id body key kind) s w allowed in
      let known : post_here out stub thread_id body key kind s w
          ≡ post_as out stub ctx thread_id body key kind s w =
        rw here refl in
      post_as-IsPosted ctx thread_id key kind body m w' account (sym known ∙ sym runs ∙ e)
