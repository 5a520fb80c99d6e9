-- ===== src/Aggregation/FallbackSpend/Threshold.antt =====
-- The threshold of a fallback leaf, and the signatures that are enough for it.
use did_btcr2_js.Prelude.{
  filter, All, Bool, List, all, arith, false, length, map, nat_beq, nat_eq, not, refl, string_eq,
  true, ℕ, ◌≡◌, ◌≤◌,
}
use did_btcr2_js.Prelude.Result.{>>=-eq-ok, guard, guard-eq-ok, ok, or_throw, ◌>>◌}
use did_btcr2_js.Aggregation.FallbackSpend.{chosen, take_number, bytes_eq}
use did_btcr2_js.Prelude.Dict.{Dict, Distinct, has, includes}
use did_btcr2_js.Common.Number.{
  at_least, Number, above, below, fraction, infinity, is_integer, nan, natural, negative,
  negative_fraction, negative_infinity,
}
use did_btcr2_js.Aggregation.Cohort.{
  invalid_cohort_key, invalid_fallback_threshold, no_cohort_keys, taproot_error,
}
use did_btcr2_js.Aggregation.Recovery.{
  Taproot, assert_fallback_params, build_fallback_leaf, is_out, x_only,
}
use did_btcr2_js.Smt.Hash.{Bytes}
use did_btcr2_js.Aggregation.FallbackSpend.Signers.{length-le-filter, length-take}

pub is_out-eq-false :
    (most : ℕ) (x : Number)
    → is_out most x ≡ false
    → (n : ℕ) × (x ≡ natural n) × (1 ≤ n) × (n ≤ most)
unfolding is_integer below above
is_out-eq-false most (natural n) e = (n, refl, ground arith, ground arith)
is_out-eq-false most (negative n) e = cc
is_out-eq-false most (fraction n) e = cc
is_out-eq-false most (negative_fraction n) e = cc
is_out-eq-false most infinity e = cc
is_out-eq-false most negative_infinity e = cc
is_out-eq-false most nan e = cc

pub leaf_threshold :
    (t : Taproot) (keys : List Bytes) (x : Number) (leaf : Bytes)
    → build_fallback_leaf t keys x ≡ ok leaf
    → (n : ℕ) × (x ≡ natural n) × (1 ≤ n) × (n ≤ length keys)
unfolding build_fallback_leaf assert_fallback_params
leaf_threshold t keys x leaf e =
    let (u, e1, e2) =
      >>=-eq-ok (assert_fallback_params keys x)
        (λ _. or_throw (t.multisig_script x (map x_only (t.sort_keys keys))) taproot_error) e in
    let (v, e3, e4) =
      >>=-eq-ok (guard (not (nat_beq (length keys) 0)) no_cohort_keys)
        (λ _.
          guard (all (λ key. nat_beq (length key) 33) keys) invalid_cohort_key
          >> guard (not (is_out (length keys) x)) invalid_fallback_threshold)
        e1 in
    let (z, e5, e6) =
      >>=-eq-ok (guard (all (λ key. nat_beq (length key) 33) keys) invalid_cohort_key)
        (λ _. guard (not (is_out (length keys) x)) invalid_fallback_threshold) e4 in
    is_out-eq-false (length keys) x (not_true (is_out (length keys) x) (guard-eq-ok _ _ e6))
  where
    not_true : (b : Bool) → not b ≡ true → b ≡ false
    not_true b h = ground arith

pub enough :
    (m : Dict Bytes Bytes) (keys : List Bytes) (k : ℕ)
    → Distinct m
    → All (λ x. includes x.0 keys ≡ true) m
    → at_least (length m) (natural k) ≡ true
    → length (chosen keys (natural k) m) ≡ k
unfolding at_least take_number
enough m keys k d of_cohort h =
    let held : k ≤ length m = ground (arith, h) in
    length-take k (filter (λ key. has key m) keys)
      (omega (arith, length-le-filter m keys d of_cohort))
