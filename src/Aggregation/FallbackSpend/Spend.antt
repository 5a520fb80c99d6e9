-- ===== src/Aggregation/FallbackSpend/Spend.antt =====
-- What a fallback spend that `buildFallbackSpend` returns is made of.
use did_btcr2_js.Prelude.{
  Bool-cases, In, ap, arith, inl, inr, sym, ◌++◌, ◌∷◌, ◌⊎◌, ◌∙◌, Option, filter, none, All, List,
  [], length, map, nat_beq, nat_eq, not, refl, some, string_eq, subst, true, ℕ, ◌≡◌, ◌≤◌,
}
use did_btcr2_js.Prelude.Result.{
  or_throw-eq-ok, Holds-eq, Holds, Holds->>=, guard, guard-eq-ok, ok, or_throw,
}
use did_btcr2_js.Aggregation.FallbackSpend.{
  drop_last, build_fallback_spend, chosen, take_number, bytes_eq, spend_payment,
  FallbackSpendParams, Spender, accept, fallback_sighash, find_leaf, signed_by,
}
use did_btcr2_js.Prelude.Dict.{Dict, has}
use did_btcr2_js.Common.Number.{at_least, Number, natural}
use did_btcr2_js.Aggregation.Cohort.{
  same_bytes_iff, fallback_leaf_not_found, not_enough_fallback_signatures, prevout_script_mismatch,
  same_bytes, no_cohort_keys, taproot_error,
}
use did_btcr2_js.Aggregation.Recovery.{
  build_recovery_leaves, tap_leaf_hash, taproot_leaf_version, Payment, build_fallback_leaf,
  resolve_fallback_threshold, x_only,
}
use did_btcr2_js.Smt.Hash.{Bytes}
use did_btcr2_js.Aggregation.FallbackSpend.Signers.{All-filter_self, All-take}
use did_btcr2_js.Aggregation.FallbackSpend.Accepted.{
  IsWitness, accept-IsAccepted, length-map, witnesses_signed,
}
use did_btcr2_js.Aggregation.FallbackSpend.Threshold.{enough, leaf_threshold}

-- The output that the keys and the parameters of the cohort make.
abbrev pub IsOutput : Spender → FallbackSpendParams → Payment → Type 0
IsOutput w p payment =
    (key : Bytes) × (leaves : List Bytes) × (w.taproot.key_aggregate
        (w.taproot.sort_keys p.cohort_keys)
      ≡ some key)
    × (build_recovery_leaves w.taproot p.funding_model p.recovery_key p.recovery_sequence
          p.cohort_keys (resolve_fallback_threshold p.fallback_threshold (length p.cohort_keys))
        ≡ ok leaves)
    × (w.taproot.p2tr key leaves p.network ≡ some payment)

-- The script of an entry is the leaf, with one byte for the leaf version behind it; an empty script
-- stands for the empty leaf.
abbrev pub IsLeafScript : Bytes → Bytes → Type 0
IsLeafScript leaf script =
    ((script ≡ []) × (leaf ≡ [])) ⊎ ((version : ℕ) × (script ≡ leaf ++ version ∷ []))

drop_last-IsLeafScript : (script : Bytes) → IsLeafScript (drop_last script) script
unfolding drop_last
drop_last-IsLeafScript [] = inl (refl, refl)
drop_last-IsLeafScript (x ∷ []) = inr (x, refl)
drop_last-IsLeafScript (x ∷ y ∷ ys) = elim (drop_last-IsLeafScript (y ∷ ys)) [
  | inl (empty, _) ↦ cc
  | inr (version, e) ↦ inr (version, ap (λ rest. x ∷ rest) e)
]

-- What `find_leaf` returns is an entry, and its script is the leaf.
find_leaf-IsLeafScript :
    (leaf : Bytes) (entries : List (Bytes × Bytes)) (entry : Bytes × Bytes)
    → find_leaf leaf entries ≡ some entry
    → In entry entries × IsLeafScript leaf entry.1
unfolding find_leaf
find_leaf-IsLeafScript leaf [] entry e = cc
find_leaf-IsLeafScript leaf ((control, script) ∷ rest) entry e =
    elim (Bool-cases (same_bytes (drop_last script) leaf)) [
      | inl same ↦
          let here : (control, script) ≡ entry = ground (arith, rw same at e) in
          (
            inl (sym here),
            subst (λ x. IsLeafScript leaf x.1) here
                (subst (λ x. IsLeafScript x script)
                  ((same_bytes_iff (drop_last script) leaf).0 same)
                  (drop_last-IsLeafScript script)),
          )
      | inr other ↦
          let (there, is_leaf) = find_leaf-IsLeafScript leaf rest entry (rw other at e) in
          (inr there, is_leaf)
    ]

-- A returned spend: of the output that the cohort's keys, threshold and recovery parameters make, by
-- the leaf for the threshold k of the cohort, with exactly k signatures of its keys.
pub record IsSpend (w : Spender) (p : FallbackSpendParams) (tx : Bytes) : Type 0 where
  pub k : ℕ
  pub threshold : resolve_fallback_threshold p.fallback_threshold (length p.cohort_keys) ≡ natural k
  pub positive : 1 ≤ k
  pub within : k ≤ length p.cohort_keys
  pub payment : Payment
  pub output : IsOutput w p payment
  pub spends : payment.script ≡ p.prev_out_script
  pub leaf : Bytes
  pub leaf_of : build_fallback_leaf w.taproot p.cohort_keys (natural k) ≡ ok leaf
  pub entry : Bytes × Bytes
  pub listed : In entry payment.tap_leaf_script
  pub script_of : IsLeafScript leaf entry.1
  pub witness : List (Bytes × Bytes × Bytes)
  pub exactly : length witness ≡ k
  pub signed :
      All
        (IsWitness w
          (map x_only (w.taproot.sort_keys p.cohort_keys))
          (fallback_sighash w p.pending_tx p.input_index p.prev_out_script p.prev_out_value leaf)
          (tap_leaf_hash w.taproot leaf taproot_leaf_version))
        witness
  pub final : w.finalize p.pending_tx p.input_index entry witness ≡ some tx

module _ (w : Spender) (p : FallbackSpendParams) where
  abbrev keys : List Bytes
  keys = map x_only (w.taproot.sort_keys p.cohort_keys)

  abbrev threshold_of : Number
  threshold_of = resolve_fallback_threshold p.fallback_threshold (length p.cohort_keys)

  abbrev sighash_of : Bytes → Bytes
  sighash_of made =
      fallback_sighash w p.pending_tx p.input_index p.prev_out_script p.prev_out_value made

  abbrev accepted_by : Bytes → Dict Bytes Bytes
  accepted_by made = accept w keys (sighash_of made) p.signatures []

  abbrev hash_of : Bytes → Bytes
  hash_of made = tap_leaf_hash w.taproot made taproot_leaf_version

  abbrev witness_of : Bytes → Number → List (Bytes × Bytes × Bytes)
  witness_of made x =
      map (signed_by (hash_of made) (accepted_by made)) (chosen keys x (accepted_by made))

  finished :
      (paid : Payment) (made : Bytes) (at_leaf : Bytes × Bytes) (tx : Bytes)
      → IsOutput w p paid
      → same_bytes paid.script p.prev_out_script ≡ true
      → build_fallback_leaf w.taproot p.cohort_keys threshold_of ≡ ok made
      → find_leaf made paid.tap_leaf_script ≡ some at_leaf
      → at_least (length (accepted_by made)) threshold_of ≡ true
      → w.finalize p.pending_tx p.input_index at_leaf (witness_of made threshold_of) ≡ some tx
      → IsSpend w p tx
  finished paid made at_leaf tx out same built located counted made_final =
      let (n, en, least, most) = leaf_threshold w.taproot p.cohort_keys threshold_of made built in
      let (d, of_cohort, verified) =
        accept-IsAccepted w keys (sighash_of made) p.signatures [] (tt, tt, tt) in
      record {
        k = n;
        threshold = en;
        positive = least;
        within = most;
        payment = paid;
        output = out;
        spends = (same_bytes_iff paid.script p.prev_out_script).0 same;
        leaf = made;
        leaf_of = subst (λ x. build_fallback_leaf w.taproot p.cohort_keys x ≡ ok made) en built;
        entry = at_leaf;
        listed = (find_leaf-IsLeafScript made paid.tap_leaf_script at_leaf located).0;
        script_of = (find_leaf-IsLeafScript made paid.tap_leaf_script at_leaf located).1;
        witness = witness_of made (natural n);
        exactly =
            length-map (signed_by (hash_of made) (accepted_by made))
              (chosen keys (natural n) (accepted_by made))
            ∙ enough (accepted_by made) keys n d of_cohort
                (subst (λ x. at_least (length (accepted_by made)) x ≡ true) en counted);
        signed =
            witnesses_signed w keys (sighash_of made) (accepted_by made) (hash_of made)
              (chosen keys (natural n) (accepted_by made)) of_cohort verified
              (unfold take_number in
                All-take (λ key. has key (accepted_by made) ≡ true) n
                  (filter (λ key. has key (accepted_by made)) keys)
                  (All-filter_self (λ key. has key (accepted_by made)) keys));
        final =
            subst (λ x. w.finalize p.pending_tx p.input_index at_leaf (witness_of made x) ≡ some tx)
              en made_final;
      }

  spend_payment-IsSpend :
      (paid : Payment)
      → IsOutput w p paid
      → Holds (IsSpend w p) (spend_payment w p threshold_of paid)
  unfolding spend_payment
  spend_payment-IsSpend paid out =
      Holds->>= (IsSpend w p)
        (guard (same_bytes paid.script p.prev_out_script) prevout_script_mismatch) _
        (λ _ e1.
          Holds->>= (IsSpend w p) (build_fallback_leaf w.taproot p.cohort_keys threshold_of) _
            (λ made e2.
              Holds->>= (IsSpend w p)
                (or_throw (find_leaf made paid.tap_leaf_script) fallback_leaf_not_found) _
                (λ at_leaf e3.
                  Holds->>= (IsSpend w p)
                    (guard (at_least (length (accepted_by made)) threshold_of)
                      not_enough_fallback_signatures)
                    _
                    (λ _ e4.
                      completed made at_leaf (guard-eq-ok _ prevout_script_mismatch e1) e2
                        (or_throw-eq-ok _ fallback_leaf_not_found at_leaf e3)
                        (guard-eq-ok _ not_enough_fallback_signatures e4)
                        (w.finalize p.pending_tx p.input_index at_leaf
                          (witness_of made threshold_of))
                        refl))))
    where
      completed :
          (made : Bytes) (at_leaf : Bytes × Bytes)
          → same_bytes paid.script p.prev_out_script ≡ true
          → build_fallback_leaf w.taproot p.cohort_keys threshold_of ≡ ok made
          → find_leaf made paid.tap_leaf_script ≡ some at_leaf
          → at_least (length (accepted_by made)) threshold_of ≡ true
          → (o : Option Bytes)
          → w.finalize p.pending_tx p.input_index at_leaf (witness_of made threshold_of) ≡ o
          → Holds (IsSpend w p) (or_throw o taproot_error)
      completed made at_leaf a b c d none e = tt
      completed made at_leaf a b c d (some tx) e = finished paid made at_leaf tx out a b c d e

  build_fallback_spend-Holds : Holds (IsSpend w p) (build_fallback_spend w p)
  unfolding build_fallback_spend
  build_fallback_spend-Holds =
      Holds->>= (IsSpend w p) (guard (not (nat_beq (length p.cohort_keys) 0)) no_cohort_keys) _
        (λ _ e1.
          Holds->>= (IsSpend w p)
            (or_throw (w.taproot.key_aggregate (w.taproot.sort_keys p.cohort_keys)) taproot_error) _
            (λ internal_key e2.
              Holds->>= (IsSpend w p)
                (build_recovery_leaves w.taproot p.funding_model p.recovery_key p.recovery_sequence
                  p.cohort_keys threshold_of)
                _
                (λ leaves e3.
                  Holds->>= (IsSpend w p)
                    (or_throw (w.taproot.p2tr internal_key leaves p.network) taproot_error) _
                    (λ paid e4. spend_payment-IsSpend paid (
                      internal_key,
                      leaves,
                      or_throw-eq-ok _ taproot_error internal_key e2,
                      e3,
                      or_throw-eq-ok _ taproot_error paid e4,
                    )))))

-- When `buildFallbackSpend` returns a transaction, it spends the output that the cohort's keys and
-- parameters make, by an entry of its `tapLeafScript` whose script is the fallback leaf of the threshold
-- k (from 1 to the number of keys), with exactly k signatures, each by a key of the cohort, under the
-- leaf's hash and verified over the sighash of that leaf.
pub build_fallback_spend-IsSpend :
    (w : Spender) (p : FallbackSpendParams) (tx : Bytes)
    → build_fallback_spend w p ≡ ok tx
    → IsSpend w p tx
build_fallback_spend-IsSpend w p tx e =
    Holds-eq (IsSpend w p) (build_fallback_spend w p) tx (build_fallback_spend-Holds w p) e
