-- ===== src/Usecases/Cost/Laws.antt =====
-- The arithmetic of a budget.
use dop_api.Base.{
  sym, refl, ◌≡◌, inl, inr, String, true, false, Option, none, some, nat_eq, string_eq, arith,
  Bool-cases,
}
use mathlib.Core.Path.{subst}
use dop_api.Base.Int.{ℤ, pos, negsuc, ◌+ℤ◌, ◌-ℤ◌, ◌≤ℤ◌, ltb_ℤ, max}
use dop_api.Usecases.Cost.Models.{Money, PbBudget}
use dop_api.Usecases.Cost.{budget_view}

-- What remains of a limit: nothing is said without a ceiling; under the ceiling it is the rest, of
-- which the spending makes up the limit; over the ceiling it is zero.
pub data IsRemaining (currency : String) (limit spent : ℤ) : Option Money → Type 0 where
  no_ceiling : ltb_ℤ (pos 0) limit ≡ false → IsRemaining currency limit spent none
  rest :
      (m : Money)
      → ltb_ℤ (pos 0) limit ≡ true
      → m.currency ≡ currency
      → pos 0 ≤ℤ m.amount_micros
      → m.amount_micros +ℤ spent ≡ limit
      → IsRemaining currency limit spent (some m)
  blown :
      (m : Money)
      → ltb_ℤ (pos 0) limit ≡ true
      → m.currency ≡ currency
      → m.amount_micros ≡ pos 0
      → limit ≤ℤ spent
      → IsRemaining currency limit spent (some m)

under : (limit spent : ℤ) → ltb_ℤ spent limit ≡ true → max (limit -ℤ spent) (pos 0) +ℤ spent ≡ limit
under (pos n) (pos m) h = ground arith
under (pos n) (negsuc m) h = ground arith
under (negsuc n) (pos m) h = ground arith
under (negsuc n) (negsuc m) h = ground arith

at_least : (limit spent : ℤ) → pos 0 ≤ℤ max (limit -ℤ spent) (pos 0)
at_least (pos n) (pos m) = ground arith
at_least (pos n) (negsuc m) = ground arith
at_least (negsuc n) (pos m) = ground arith
at_least (negsuc n) (negsuc m) = ground arith

over :
    (limit spent : ℤ)
    → ltb_ℤ spent limit ≡ false
    → (max (limit -ℤ spent) (pos 0) ≡ pos 0) × (limit ≤ℤ spent)
over (pos n) (pos m) h = (ground arith, ground arith)
over (pos n) (negsuc m) h = (ground arith, ground arith)
over (negsuc n) (pos m) h = (ground arith, ground arith)
over (negsuc n) (negsuc m) h = (ground arith, ground arith)

open_budget :
    (b : PbBudget) → ltb_ℤ (pos 0) b.limit_micros ≡ false → (budget_view b).remaining ≡ none
unfolding budget_view
open_budget b h = rw h refl

ceiling_budget :
    (b : PbBudget)
    → ltb_ℤ (pos 0) b.limit_micros ≡ true
    → (budget_view b).remaining
      ≡ some (record {
        currency = b.currency;
        amount_micros = max (b.limit_micros -ℤ b.spent_micros) (pos 0);
      })
unfolding budget_view
ceiling_budget b h = rw h refl

-- A budget's remainder, in exact integers: absent without a ceiling, else the limit less the
-- spending, and zero where the spending has reached the limit.
pub budget_view-IsRemaining :
    (b : PbBudget) → IsRemaining b.currency b.limit_micros b.spent_micros (budget_view b).remaining
unfolding budget_view
budget_view-IsRemaining b =
    let open_rest = max (b.limit_micros -ℤ b.spent_micros) (pos 0) in
    elim (Bool-cases (ltb_ℤ (pos 0) b.limit_micros)) [
      | inr none_set ↦
          subst (IsRemaining b.currency b.limit_micros b.spent_micros)
            (sym (open_budget b none_set)) (no_ceiling none_set)
      | inl set ↦
          subst (IsRemaining b.currency b.limit_micros b.spent_micros) (sym (ceiling_budget b set))
            (elim (Bool-cases (ltb_ℤ b.spent_micros b.limit_micros)) [
              | inl below ↦
                  rest _ set refl (at_least b.limit_micros b.spent_micros)
                    (under b.limit_micros b.spent_micros below)
              | inr reached ↦
                  blown _ set refl (over b.limit_micros b.spent_micros reached).0
                    (over b.limit_micros b.spent_micros reached).1
            ])
    ]
