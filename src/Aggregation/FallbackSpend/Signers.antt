-- ===== src/Aggregation/FallbackSpend/Signers.antt =====
-- The signatures that a fallback spend is finalized with.
use did_btcr2_js.Aggregation.FallbackSpend.{bytes_eq}
use did_btcr2_js.Prelude.{
  All, Bool, Bool-cases, List, [], ap, arith, beq_refl, false, filter, inl, inr, is_some, length,
  nat_eq, refl, string_eq, suc, take, true, zero, ℕ, ◌∙◌, ◌∷◌, ◌≡◌, ◌≤◌,
}
use did_btcr2_js.Prelude.Dict.{Dict, Distinct, get, has, includes}
use did_btcr2_js.Smt.Hash.{Bytes}
use did_btcr2_js.Aggregation.Cohort.{same_bytes, same_bytes_iff}

length-filter-le :
    (p q : Bytes → Bool) (keys : List Bytes)
    → ((k : Bytes) → p k ≡ true → q k ≡ true)
    → length (filter p keys) ≤ length (filter q keys)
length-filter-le p q [] h = omega arith
length-filter-le p q (k ∷ keys) h = ground (arith, h k, length-filter-le p q keys h)

-- One more key passes.
length-filter-suc :
    (a : Bytes) (p q : Bytes → Bool) (keys : List Bytes)
    → includes a keys ≡ true
    → p a ≡ false
    → q a ≡ true
    → ((k : Bytes) → p k ≡ true → q k ≡ true)
    → suc (length (filter p keys)) ≤ length (filter q keys)
length-filter-suc a p q [] i pa qa h = cc
length-filter-suc a p q (k ∷ keys) i pa qa h = elim (Bool-cases (same_bytes k a)) [
  | inl same ↦
      let e : k ≡ a = (same_bytes_iff k a).0 same in
      let pk : p k ≡ false = ap p e ∙ pa in
      let qk : q k ≡ true = ap q e ∙ qa in rw (pk, qk) (omega (arith, length-filter-le p q keys h))
  | inr differ ↦ ground (arith, h k, length-filter-suc a p q keys (rw differ at i) pa qa h)
]

pub length-le-filter :
    (m : Dict Bytes Bytes) (keys : List Bytes)
    → Distinct m
    → All (λ x. includes x.0 keys ≡ true) m
    → length m ≤ length (filter (λ k. has k m) keys)
unfolding get
length-le-filter [] keys d h = omega arith
length-le-filter ((a, v) ∷ m) keys d h =
    let one_more =
      length-filter-suc a (λ k. has k m) (λ k. has k ((a, v) ∷ m)) keys h.0 (ap is_some d.0)
        (self a) (λ k e. more k e) in
    omega (arith, length-le-filter m keys d.1 h.1, one_more)
  where
    self : (a : Bytes) → has a ((a, v) ∷ m) ≡ true
    self a = rw (beq_refl a) refl

    more : (k : Bytes) → has k m ≡ true → has k ((a, v) ∷ m) ≡ true
    more k e = ground arith

pub length-take : (k : ℕ) (xs : List Bytes) → k ≤ length xs → length (take k xs) ≡ k
length-take zero xs h = refl
length-take (suc k) [] h = absurd (omega (arith, h))
length-take (suc k) (x ∷ xs) h = ap suc (length-take k xs (omega (arith, h)))

pub All-take : (P : Bytes → Type 0) (k : ℕ) (xs : List Bytes) → All P xs → All P (take k xs)
All-take P zero xs h = tt
All-take P (suc k) [] h = tt
All-take P (suc k) (x ∷ xs) h = (h.0, All-take P k xs h.1)

pub All-filter_self : (p : Bytes → Bool) (xs : List Bytes) → All (λ k. p k ≡ true) (filter p xs)
All-filter_self p [] = tt
All-filter_self p (x ∷ xs) = elim (Bool-cases (p x)) [
  | inl e ↦ rw e (e, All-filter_self p xs)
  | inr e ↦ rw e (All-filter_self p xs)
]
