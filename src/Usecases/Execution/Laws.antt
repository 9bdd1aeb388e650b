-- ===== src/Usecases/Execution/Laws.antt =====
-- The level of isolation is the one that was declared, and who may change a sandbox.
use mathlib.Core.Path.{subst}
use dop_api.Base.{
  sym, ◌∙◌, refl, ◌≡◌, inl, inr, String, true, false, some, nat_eq, string_eq, is_empty, is_in,
  arith,
}
use dop_api.Base.Table.{name_of, value_of, names, name_of-value_of}
use dop_api.Platform.Context.{Scope, AuthContext, has_role}
use dop_api.Platform.Errors.{Result-cases, done, refuse}
use dop_api.Platform.Decorator.{account_scoped, require_role}
use dop_api.Platform.Decorator.Laws.{role_missing}
use dop_api.Coreclient.Client.{Outside, Metadata, call, metadata, idempotency}
use dop_api.Usecases.Execution.Models.{NewSandbox, ExecutionStub, ProvisionSandboxRequest}
use dop_api.Usecases.Execution.{
  tier_by_name, changes_life_cycle, new_sandbox, provision_sandbox, suspend_sandbox, resume_sandbox,
  destroy_sandbox,
}

-- The two stubs answer alike to a request for this demand at this level.
abbrev pub ProvisionAlike :
    {W : Type 0} → String → String → ExecutionStub W → ExecutionStub W → Type 0
ProvisionAlike {W} demand_id tier stub other =
    (md : Metadata) (q : ProvisionSandboxRequest) (w : W)
    → q.demand_id ≡ demand_id
    → name_of tier_by_name q.min_tier ≡ tier
    → stub.provision md q w ≡ other.provision md q w

declared_tier :
    (demand_id min_tier : String) (body : NewSandbox)
    → new_sandbox demand_id min_tier ≡ done body
    → (is_in min_tier (names tier_by_name) ≡ true)
      × (body.demand_id ≡ demand_id)
      × (body.min_tier ≡ min_tier)
unfolding new_sandbox
declared_tier demand_id min_tier body valid = ground arith

module _ {W : Type 0} (out : Outside W) (stub : ExecutionStub W) (s : Scope) (w : W) where
  provision_alike :
      (other : ExecutionStub W) (body : NewSandbox) (key : String)
      → is_in body.min_tier (names tier_by_name) ≡ true
      → ProvisionAlike body.demand_id body.min_tier stub other
      → provision_sandbox out stub body key s w ≡ provision_sandbox out other body key s w
  unfolding provision_sandbox account_scoped require_role call
  provision_alike other body key known alike =
      let tier = value_of tier_by_name body.min_tier in
      let drawing = idempotency out key s w in
      elim (Result-cases drawing.0) [
        | inr (e, failed) ↦ ground arith
        | inl (k, drew) ↦
            let carrying = metadata out s drawing.1 in
            elim (Result-cases carrying.0) [
              | inr (e, failed) ↦ ground arith
              | inl (md, carried) ↦
                  let request : ProvisionSandboxRequest = record {
                    demand_id = body.demand_id;
                    min_tier = tier;
                    idempotency_key = k;
                  } in
                  ground (
                    arith,
                    alike md request carrying.1 refl
                        (name_of-value_of tier_by_name body.min_tier refl known),
                  )
            ]
      ]

  -- A valid request is sent for its own demand at the very level that it declares, neither lowered nor
  -- raised nor filled in: a core that answers otherwise to any other request makes no difference.
  pub provision_sandbox-declared :
      (other : ExecutionStub W) (demand_id min_tier key : String) (body : NewSandbox)
      → new_sandbox demand_id min_tier ≡ done body
      → ProvisionAlike demand_id min_tier stub other
      → provision_sandbox out stub body key s w ≡ provision_sandbox out other body key s w
  provision_sandbox-declared other demand_id min_tier key body valid alike =
      let facts = declared_tier demand_id min_tier body valid in
      provision_alike other body key
        (subst (λ t. is_in t (names tier_by_name) ≡ true) (sym facts.2) facts.0)
        (λ md q v same_demand same_tier. alike md q v (same_demand ∙ facts.1) (same_tier ∙ facts.2))

  -- A caller with an active account whose role is not owner, admin or developer creates, suspends,
  -- resumes and destroys no sandbox: each answers 403, and the core is not called.
  life_cycle_refused :
      (ctx : AuthContext) (body : NewSandbox) (key id : String)
      → s.auth_ctx ≡ some ctx
      → is_empty ctx.account_id ≡ false
      → has_role ctx changes_life_cycle ≡ false
      → (provision_sandbox out stub body key s w ≡ (refuse 403 "Insufficient permission", w))
        × (suspend_sandbox out stub id s w ≡ (refuse 403 "Insufficient permission", w))
        × (resume_sandbox out stub id s w ≡ (refuse 403 "Insufficient permission", w))
        × (destroy_sandbox out stub id s w ≡ (refuse 403 "Insufficient permission", w))
  unfolding provision_sandbox suspend_sandbox resume_sandbox destroy_sandbox
  life_cycle_refused ctx body key id here account lacks = (
    role_missing changes_life_cycle _ s w ctx here account lacks,
    role_missing changes_life_cycle _ s w ctx here account lacks,
    role_missing changes_life_cycle _ s w ctx here account lacks,
    role_missing changes_life_cycle _ s w ctx here account lacks,
  )
