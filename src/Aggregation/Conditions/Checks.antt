-- ===== src/Aggregation/Conditions/Checks.antt =====
-- The checks of conditions.ts, one by one, beside what they ask for.
pub mod Costs
use did_btcr2_js.Prelude.{
  beq_ne, ◌==◌, ◌≢◌, subst, sym, All, Bool-cases, inl, inr, length, nat_eq, not, string_eq, suc,
  zero, ◌&&◌, ◌||◌, ◌⊎◌, Bool, Option, arith, false, ltb, none, refl, some, true, ℕ, ◌↔◌, ◌∷◌, ◌≡◌,
  List, [], ◌++◌,
}
use did_btcr2_js.Common.Number.{
  above, is_finite, Number, below, fraction, infinity, is_integer, less, nan, natural, negative,
  negative_fraction, negative_infinity,
}
use Prim.Native.Char.{code}
use Prim.Native.String.{String}
use did_btcr2_js.Aggregation.Conditions.{
  CohortCost, check_basis, check_cost, check_funding_model, check_threshold, exceeds, is_hex_digit,
  is_hex_text, known_beacon_types, max_recovery_sequence, check_bound, check_max, check_order,
  check_pair, check_trigger, is_short, report,
}
use did_btcr2_js.Aggregation.Conditions.Admissible.{
  IsTimelock, IsAmount, IsBasis, IsCost, IsHexDigit, codes, AreOrdered, IsAtLeast, IsPair, Optional,
}
use text.Mathlib.TextEquality.{eq_iff}
use did_btcr2_js.Prelude.Dict.{includes}

pub append-eq-nil {ℓ} : {A : Type ℓ} (xs ys : List A) → (xs ++ ys ≡ []) ↔ ((xs ≡ []) × (ys ≡ []))
append-eq-nil [] ys = (λ e. (refl, e), λ h. h.1)
append-eq-nil (x ∷ xs) ys = (λ e. cc, λ h. cc (h.0))

pub report-eq-nil : (b : Bool) (text : String) → (report b text ≡ []) ↔ (b ≡ false)
report-eq-nil true text = (λ e. cc, λ e. cc)
report-eq-nil false text = (λ e. refl, λ e. refl)

is_short-eq-false : (least : ℕ) (x : Number) → (is_short least x ≡ false) ↔ IsAtLeast least x
unfolding is_integer below
is_short-eq-false least (natural n) = (λ e. (n, refl, ground arith), λ h. ground (arith, h.1, h.2))
is_short-eq-false least (negative n) = (λ e. cc, λ h. cc (h.1))
is_short-eq-false least (fraction n) = (λ e. cc, λ h. cc (h.1))
is_short-eq-false least (negative_fraction n) = (λ e. cc, λ h. cc (h.1))
is_short-eq-false least infinity = (λ e. cc, λ h. cc (h.1))
is_short-eq-false least negative_infinity = (λ e. cc, λ h. cc (h.1))
is_short-eq-false least nan = (λ e. cc, λ h. cc (h.1))

iff_trans : {A B C : Type 0} → A ↔ B → B ↔ C → A ↔ C
iff_trans p q = (λ a. q.0 (p.0 a), λ c. p.1 (q.1 c))

pub report_short :
    (least : ℕ) (x : Number) (text : String)
    → (report (is_short least x) text ≡ []) ↔ IsAtLeast least x
report_short least x text = iff_trans (report-eq-nil _ text) (is_short-eq-false least x)

check_bound-eq-nil :
    (text : String) (x : Option Number) → (check_bound text x ≡ []) ↔ Optional (IsAtLeast 0) x
unfolding check_bound
check_bound-eq-nil text none = (λ e. tt, λ h. refl)
check_bound-eq-nil text (some x) = report_short 0 x text

check_order-eq-nil :
    (text : String) (min max : Option Number)
    → Optional (IsAtLeast 0) min
    → Optional (IsAtLeast 0) max
    → (check_order text min max ≡ []) ↔ AreOrdered min max
unfolding check_order less is_integer
check_order-eq-nil text none max h k = (λ e. tt, λ h. refl)
check_order-eq-nil text (some min) none h k = (λ e. tt, λ h. refl)
check_order-eq-nil text (some min) (some max) (a, ea, _) (b, eb, _) =
    rw (ea, eb) (iff_trans (report-eq-nil (ltb b a) text) (λ e. ground arith, λ h. ground arith))

pub check_pair-eq-nil :
    (label : String) (min max : Option Number) → (check_pair label min max ≡ []) ↔ IsPair min max
unfolding check_pair
check_pair-eq-nil label min max = (
  λ e.
      let (e1, rest) = (append-eq-nil _ _).0 e in
      let (e2, e3) = (append-eq-nil _ _).0 rest in
      let low = (check_bound-eq-nil _ min).0 e1 in
      let high = (check_bound-eq-nil _ max).0 e2 in
      (low, high, (check_order-eq-nil _ min max low high).0 e3),
  λ h. (append-eq-nil _ _).1 (
    (check_bound-eq-nil _ min).1 h.0,
    (append-eq-nil _ _).1
        ((check_bound-eq-nil _ max).1 h.1, (check_order-eq-nil _ min max h.0 h.1).1 h.2),
  ),
)

pub check_max-eq-nil :
    (m : ℕ) (max : Option Number)
    → (check_max (natural m) max ≡ [])
      ↔ (Optional (IsAtLeast 1) max × AreOrdered (some (natural m)) max)
unfolding check_max less is_integer below
check_max-eq-nil m none = (λ e. (tt, tt), λ h. refl)
check_max-eq-nil m (some (natural n)) =
    (λ e. ((n, refl, ground arith), ground arith), λ h. ground (arith, h.0.1, h.0.2, h.1))
check_max-eq-nil m (some (negative n)) = (λ e. cc, λ h. cc (h.0.1))
check_max-eq-nil m (some (fraction n)) = (λ e. cc, λ h. cc (h.0.1))
check_max-eq-nil m (some (negative_fraction n)) = (λ e. cc, λ h. cc (h.0.1))
check_max-eq-nil m (some infinity) = (λ e. cc, λ h. cc (h.0.1))
check_max-eq-nil m (some negative_infinity) = (λ e. cc, λ h. cc (h.0.1))
check_max-eq-nil m (some nan) = (λ e. cc, λ h. cc (h.0.1))

pub check_trigger-eq-nil : (x : Option Number) → (check_trigger x ≡ []) ↔ Optional (IsAtLeast 1) x
unfolding check_trigger
check_trigger-eq-nil none = (λ e. tt, λ h. refl)
check_trigger-eq-nil (some x) = report_short 1 x _

exceeds-eq-false :
    (max : Option Number) (k : ℕ)
    → Optional (IsAtLeast 1) max
    → (exceeds max (natural k) ≡ false) ↔ AreOrdered (some (natural k)) max
unfolding exceeds less is_integer
exceeds-eq-false none k h = (λ e. tt, λ o. refl)
exceeds-eq-false (some max) k (n, en, _) = rw en (λ e. ground arith, λ o. ground arith)

pub check_threshold-eq-nil :
    (k max : Option Number)
    → Optional (IsAtLeast 1) max
    → (check_threshold k max ≡ []) ↔ (Optional (IsAtLeast 1) k × AreOrdered k max)
unfolding check_threshold
check_threshold-eq-nil none max h = (λ e. (tt, tt), λ o. refl)
check_threshold-eq-nil (some k) max h = elim (Bool-cases (is_short 1 k)) [
  | inl short ↦ rw short (λ e. cc, λ o. cc ((is_short-eq-false 1 k).1 o.0, short))
  | inr fine ↦
      let at_least : IsAtLeast 1 k = (is_short-eq-false 1 k).0 fine in
      let (n, en, least) = at_least in
      rw (fine, en)
        (
          λ e. ((n, refl, least), (exceeds-eq-false max n h).0 ((report-eq-nil _ _).0 e)),
          λ o. (report-eq-nil _ _).1 ((exceeds-eq-false max n h).1 o.1),
        )
]

IsAmount-eq-false : (x : Number) → ((not (is_finite x) || below x 0) ≡ false) ↔ IsAmount x
unfolding is_finite below
IsAmount-eq-false (natural n) = (λ e. inl (n, refl), λ h. ground arith)
IsAmount-eq-false (fraction n) = (λ e. inr (n, refl), λ h. ground arith)
IsAmount-eq-false (negative n) = (λ e. cc, λ h. ground arith)
IsAmount-eq-false (negative_fraction n) = (λ e. cc, λ h. ground arith)
IsAmount-eq-false infinity = (λ e. cc, λ h. ground arith)
IsAmount-eq-false negative_infinity = (λ e. cc, λ h. ground arith)
IsAmount-eq-false nan = (λ e. cc, λ h. ground arith)

pub is_hex_text-eq-true :
    (n : ℕ) (s : String)
    → (is_hex_text n s ≡ true) ↔ ((length (codes s) ≡ n) × All IsHexDigit (codes s))
unfolding is_hex_text
is_hex_text-eq-true zero String.[] = (λ e. (refl, tt), λ h. refl)
is_hex_text-eq-true zero (String.◌∷◌ c s) = (λ e. cc, λ h. absurd (omega (arith, h.0)))
is_hex_text-eq-true (suc n) String.[] = (λ e. cc, λ h. absurd (omega (arith, h.0)))
is_hex_text-eq-true (suc n) (String.◌∷◌ c s) = (
  λ e.
      let (e1, e2) = both_true (is_hex_digit (code c)) (is_hex_text n s) e in
      let (len, digits) = (is_hex_text-eq-true n s).0 e2 in
      (omega (arith, len), (ground (arith, e1), digits)),
  λ h.
      and_true (is_hex_digit (code c)) (is_hex_text n s) (ground (arith, h.1.0))
        ((is_hex_text-eq-true n s).1 (omega (arith, h.0), h.1.1)),
)
  where
    both_true : (a b : Bool) → a && b ≡ true → (a ≡ true) × (b ≡ true)
    both_true a b e = ground (arith, e)

    and_true : (a b : Bool) → a ≡ true → b ≡ true → a && b ≡ true
    and_true a b e f = ground (arith, e, f)

pub check_beacon_type :
    (t text : String)
    → (report (not (includes t known_beacon_types)) text ≡ [])
      ↔ ((t ≡ "CASBeacon") ⊎ (t ≡ "SMTBeacon"))
check_beacon_type t text = (
  λ e. ground (arith, (report-eq-nil _ _).0 e, eq_iff "CASBeacon" t, eq_iff "SMTBeacon" t),
  λ h. (report-eq-nil _ _).1 (ground (arith, h, eq_iff "CASBeacon" t, eq_iff "SMTBeacon" t)),
)

pub check_funding_model-eq-nil :
    (m : Option String)
    → (check_funding_model m ≡ [])
      ↔ Optional (λ t. (t ≡ "operator-funded") ⊎ (t ≡ "participant-funded")) m
unfolding check_funding_model
check_funding_model-eq-nil none = (λ e. tt, λ h. refl)
check_funding_model-eq-nil (some t) = (
  λ e.
      ground
        (arith, (report-eq-nil _ _).0 e, eq_iff "operator-funded" t, eq_iff "participant-funded" t),
  λ h.
      (report-eq-nil _ _).1
        (ground (arith, h, eq_iff "operator-funded" t, eq_iff "participant-funded" t)),
)

IsTimelock-eq-false :
    (x : Number) → ((is_short 1 x || above x max_recovery_sequence) ≡ false) ↔ IsTimelock x
unfolding is_integer below above
IsTimelock-eq-false (natural n) =
    (λ e. (n, refl, ground arith, ground arith), λ h. ground (arith, h.1, h.2, h.3))
IsTimelock-eq-false (negative n) = (λ e. cc, λ h. cc (h.1))
IsTimelock-eq-false (fraction n) = (λ e. cc, λ h. cc (h.1))
IsTimelock-eq-false (negative_fraction n) = (λ e. cc, λ h. cc (h.1))
IsTimelock-eq-false infinity = (λ e. cc, λ h. cc (h.1))
IsTimelock-eq-false negative_infinity = (λ e. cc, λ h. cc (h.1))
IsTimelock-eq-false nan = (λ e. cc, λ h. cc (h.1))

pub check_sequence :
    (x : Number) (text : String)
    → (report (is_short 1 x || above x max_recovery_sequence) text ≡ []) ↔ IsTimelock x
check_sequence x text = iff_trans (report-eq-nil _ text) (IsTimelock-eq-false x)

pub check_max_of :
    (min : Number) (max : Option Number)
    → IsAtLeast 1 min
    → (check_max min max ≡ []) ↔ (Optional (IsAtLeast 1) max × AreOrdered (some min) max)
check_max_of min max (m, em, _) =
    subst (λ x. (check_max x max ≡ []) ↔ (Optional (IsAtLeast 1) max × AreOrdered (some x) max))
      (sym em) (check_max-eq-nil m max)

pub append_nil {ℓ} : {A : Type ℓ} {xs ys : List A} → xs ≡ [] → ys ≡ [] → xs ++ ys ≡ []
append_nil {xs = xs} {ys = ys} ex ey = (append-eq-nil xs ys).1 (ex, ey)
