-- ===== src/Aggregation/FallbackSpend/Accepted.antt =====
-- The signatures that the loop of `buildFallbackSpend` keeps.
use did_btcr2_js.Prelude.{
  All, Bool, List, Option-cases, [], any, ap, arith, false, from_option, if◌then◌else◌, inl, inr,
  length, map, nat_beq, nat_eq, not, refl, string_eq, subst, suc, sym, true, ◌&&◌, ◌∷◌, ◌≡◌,
}
use did_btcr2_js.Aggregation.FallbackSpend.{
  FallbackSignature, Spender, accept, bytes_eq, is_acceptable, signed_by, verifies,
}
use did_btcr2_js.Aggregation.Cohort.{same_bytes}
use did_btcr2_js.Prelude.Dict.{
  All-get, All-set, Dict, Distinct, Distinct-set, get, has, includes, set,
}
use did_btcr2_js.Smt.Hash.{Bytes}
use did_btcr2_js.Smt.Tree.{leaf_hash}

-- A signature of the witness: by a key of the cohort, over the sighash of the fallback leaf, filed under
-- the hash of that leaf.
abbrev pub IsWitness : Spender → List Bytes → Bytes → Bytes → Bytes × Bytes × Bytes → Type 0
IsWitness w keys sighash leaf_hash x =
    (includes x.0 keys ≡ true) × (x.1 ≡ leaf_hash) × (verifies w x.2 sighash x.0 ≡ true)

module _ (w : Spender) (keys : List Bytes) (sighash : Bytes) where
  abbrev pub IsAccepted : Dict Bytes Bytes → Type 0
  IsAccepted m =
      Distinct m
      × All (λ x. includes x.0 keys ≡ true) m
      × All (λ x. verifies w x.1 sighash x.0 ≡ true) m

  tests_passed : (a b c d e : Bool) → (a && b && c && d && e) ≡ true → (c ≡ true) × (e ≡ true)
  tests_passed a b c d e h = ground (arith, h)

  kept :
      (s : FallbackSignature) (m : Dict Bytes Bytes)
      → IsAccepted m
      → (b : Bool) → is_acceptable w keys sighash m s ≡ b
      → IsAccepted (if b then set s.pub_key s.signature m else m)
  unfolding is_acceptable
  kept s m h false e = h
  kept s m (d, of_cohort, verified) true e =
      let (of_key, fine) =
        tests_passed (nat_beq (length s.pub_key) 32) (nat_beq (length s.signature) 64)
          (any (λ k. same_bytes k s.pub_key) keys) (not (has s.pub_key m))
          (verifies w s.signature sighash s.pub_key) e in
      (
        Distinct-set s.pub_key s.signature m d,
        All-set (λ x. includes x.0 keys ≡ true) s.pub_key s.signature m of_cohort of_key,
        All-set (λ x. verifies w x.1 sighash x.0 ≡ true) s.pub_key s.signature m verified fine,
      )

  pub accept-IsAccepted :
      (signatures : List FallbackSignature) (m : Dict Bytes Bytes)
      → IsAccepted m
      → IsAccepted (accept w keys sighash signatures m)
  unfolding accept
  accept-IsAccepted [] m h = h
  accept-IsAccepted (s ∷ rest) m h =
      accept-IsAccepted rest
        (if is_acceptable w keys sighash m s then set s.pub_key s.signature m else m)
        (kept s m h (is_acceptable w keys sighash m s) refl)

  witness_signed :
      (m : Dict Bytes Bytes) (leaf_hash key : Bytes)
      → All (λ x. includes x.0 keys ≡ true) m
      → All (λ x. verifies w x.1 sighash x.0 ≡ true) m
      → has key m ≡ true
      → IsWitness w keys sighash leaf_hash (signed_by leaf_hash m key)
  witness_signed m leaf_hash key of_cohort verified there = elim (Option-cases (get key m)) [
    | inl missing ↦ cc (missing, there)
    | inr (signature, e) ↦ (
      All-get (λ x. includes x.0 keys ≡ true) key signature m of_cohort e,
      refl,
      subst (λ o. verifies w (from_option [] o) sighash key ≡ true) (sym e)
          (All-get (λ x. verifies w x.1 sighash x.0 ≡ true) key signature m verified e),
    )
  ]

  pub witnesses_signed :
      (m : Dict Bytes Bytes) (leaf_hash : Bytes) (chosen_keys : List Bytes)
      → All (λ x. includes x.0 keys ≡ true) m
      → All (λ x. verifies w x.1 sighash x.0 ≡ true) m
      → All (λ key. has key m ≡ true) chosen_keys
      → All (IsWitness w keys sighash leaf_hash) (map (signed_by leaf_hash m) chosen_keys)
  witnesses_signed m leaf_hash [] of_cohort verified there = tt
  witnesses_signed m leaf_hash (key ∷ rest) of_cohort verified there = (
    witness_signed m leaf_hash key of_cohort verified there.0,
    witnesses_signed m leaf_hash rest of_cohort verified there.1,
  )

pub length-map :
    (f : Bytes → Bytes × Bytes × Bytes) (xs : List Bytes) → length (map f xs) ≡ length xs
length-map f [] = refl
length-map f (x ∷ xs) = ap suc (length-map f xs)
