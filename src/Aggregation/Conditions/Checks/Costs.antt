-- ===== src/Aggregation/Conditions/Checks/Costs.antt =====
-- The checks of a cost.
use did_btcr2_js.Prelude.{
  beq_ne, ◌==◌, ◌≢◌, nat_eq, string_eq, Option, arith, none, refl, some, ◌↔◌, ◌≡◌, [],
}
use Prim.Native.String.{String}
use did_btcr2_js.Aggregation.Conditions.{CohortCost, check_basis, check_cost, report}
use did_btcr2_js.Aggregation.Conditions.Admissible.{IsBasis, IsCost, Optional}
use text.Mathlib.TextEquality.{eq_iff}
use did_btcr2_js.Aggregation.Conditions.Checks.{IsAmount-eq-false, append-eq-nil, report-eq-nil}

check_basis-eq-nil :
    (text : String) (basis : Option String) → (check_basis text basis ≡ []) ↔ Optional IsBasis basis
unfolding check_basis
check_basis-eq-nil text none = (λ e. tt, λ h. refl)
check_basis-eq-nil text (some basis) = (
  λ e. ground (arith, e, eq_iff basis "per-did", eq_iff basis "per-participant"),
  λ h. ground (arith, h, eq_iff basis "per-did", eq_iff basis "per-participant"),
)

unit-eq-nil : (unit : String) (text : String) → (report (unit == "") text ≡ []) ↔ (unit ≢ "")
unit-eq-nil unit text = (
  λ e empty. cc ((report-eq-nil (unit == "") text).0 e, (eq_iff unit "").1 empty),
  λ h. (report-eq-nil (unit == "") text).1 (beq_ne unit "" h),
)

pub check_cost-eq-nil :
    (label : String) (cost : Option CohortCost)
    → (check_cost label cost ≡ []) ↔ Optional IsCost cost
unfolding check_cost
check_cost-eq-nil label none = (λ e. tt, λ h. refl)
check_cost-eq-nil label (some cost) = (
  λ e.
      let (e1, rest) = (append-eq-nil _ _).0 e in
      let (e2, e3) = (append-eq-nil _ _).0 rest in
      (
        (IsAmount-eq-false cost.amount).0 ((report-eq-nil _ _).0 e1),
        (unit-eq-nil cost.unit _).0 e2,
        (check_basis-eq-nil _ cost.basis).0 e3,
      ),
  λ h. (append-eq-nil _ _).1 (
    (report-eq-nil _ _).1 ((IsAmount-eq-false cost.amount).1 h.0),
    (append-eq-nil _ _).1
        ((unit-eq-nil cost.unit _).1 h.1, (check_basis-eq-nil _ cost.basis).1 h.2),
  ),
)
