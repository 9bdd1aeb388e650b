-- ===== src/Usecases/Demand/Laws/Cockpit.antt =====
-- The cockpit is never half a screen.
use dop_api.Base.{◌≡◌, inl, inr, String, Option, none, some, nat_eq, string_eq, arith}
use dop_api.Platform.Context.{Scope}
use dop_api.Platform.Errors.{Error, Result, done, raised, Result-cases}
use dop_api.Platform.Edge.{Edge, Order, abc, acb, bac, bca, cab, cba, gather, settle}
use dop_api.Platform.Decorator.{account_scoped}
use dop_api.Coreclient.Client.{Outside}
use dop_api.Usecases.Demand.Models.{DemandCockpit}
use dop_api.Usecases.Demand.Messages.{DemandStub}
use dop_api.Usecases.Demand.{get_demand, list_threads, list_findings, get_cockpit}

-- A call that was answered, and the worlds before and after it.
pub record Answered {W A : Type 0} (f : Edge W A) (s : Scope) (a : A) : Type 0 where
  pub before : W
  pub answer : (f s before).0 ≡ done a

settle-done :
    {A B C : Type 0} (e : Option Error) (x : Result A) (y : Result B) (z : Result C) (a : A) (b : B)
    (c : C)
    → settle e x y z ≡ done (a, b, c)
    → (x ≡ done a) × (y ≡ done b) × (z ≡ done c)
unfolding settle
settle-done e (done x) (done y) (done z) a b c h = (ground arith, ground arith, ground arith)
settle-done (some e) (raised x) y z a b c h = absurd (ground arith)
settle-done none (raised x) y z a b c h = absurd (ground arith)
settle-done (some e) (done x) (raised y) z a b c h = absurd (ground arith)
settle-done none (done x) (raised y) z a b c h = absurd (ground arith)
settle-done (some e) (done x) (done y) (raised z) a b c h = absurd (ground arith)
settle-done none (done x) (done y) (raised z) a b c h = absurd (ground arith)

module _ {W A B C : Type 0} (f : Edge W A) (g : Edge W B) (h : Edge W C) (s : Scope) (w : W) where
  gather-Answered :
      (order : Order) (a : A) (b : B) (c : C)
      → (gather order f g h s w).0 ≡ done (a, b, c)
      → Answered f s a × Answered g s b × Answered h s c
  unfolding gather
  gather-Answered abc a b c e =
      let all = settle-done _ _ _ _ a b c e in
      (
        record { before = _; answer = all.0 },
        record { before = _; answer = all.1 },
        record { before = _; answer = all.2 },
      )
  gather-Answered acb a b c e =
      let all = settle-done _ _ _ _ a b c e in
      (
        record { before = _; answer = all.0 },
        record { before = _; answer = all.1 },
        record { before = _; answer = all.2 },
      )
  gather-Answered bac a b c e =
      let all = settle-done _ _ _ _ a b c e in
      (
        record { before = _; answer = all.0 },
        record { before = _; answer = all.1 },
        record { before = _; answer = all.2 },
      )
  gather-Answered bca a b c e =
      let all = settle-done _ _ _ _ a b c e in
      (
        record { before = _; answer = all.0 },
        record { before = _; answer = all.1 },
        record { before = _; answer = all.2 },
      )
  gather-Answered cab a b c e =
      let all = settle-done _ _ _ _ a b c e in
      (
        record { before = _; answer = all.0 },
        record { before = _; answer = all.1 },
        record { before = _; answer = all.2 },
      )
  gather-Answered cba a b c e =
      let all = settle-done _ _ _ _ a b c e in
      (
        record { before = _; answer = all.0 },
        record { before = _; answer = all.1 },
        record { before = _; answer = all.2 },
      )

module _ {W : Type 0} (out : Outside W) (stub : DemandStub W) (s : Scope) (w : W) where
  -- Whatever the order in which the three reads end, a cockpit is answered only if all three were
  -- answered, and it holds the demand, the threads and the findings that they gave. A failure of
  -- any of them is an error of the whole.
  pub get_cockpit-Answered :
      (order : Order) (demand_id : String) (c : DemandCockpit) (w' : W)
      → get_cockpit out stub order demand_id s w ≡ (done c, w')
      → Answered (get_demand out stub demand_id) s c.demand
        × Answered (list_threads out stub demand_id) s c.threads
        × Answered (list_findings out stub demand_id "") s c.findings
  unfolding get_cockpit account_scoped
  get_cockpit-Answered order demand_id c w' e =
      let all =
        gather order (get_demand out stub demand_id) (list_threads out stub demand_id)
          (list_findings out stub demand_id "") s w in
      elim (Result-cases all.0) [
        | inr (exc, failed) ↦ absurd (ground arith)
        | inl (screen, ok) ↦
            gather-Answered (get_demand out stub demand_id) (list_threads out stub demand_id)
              (list_findings out stub demand_id "") s w order c.demand c.threads c.findings
              (ground arith)
      ]
