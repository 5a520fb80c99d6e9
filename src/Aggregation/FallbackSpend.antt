-- ===== src/Aggregation/FallbackSpend.antt =====
-- packages/aggregation/src/core/fallback-spend.ts: the k-of-n script-path spend of a beacon output.
-- The collected signatures are kept under their keys; the code writes these keys in hexadecimal.
pub mod Threshold
pub mod Signers
pub mod Accepted
pub mod Spend
use did_btcr2_js.Prelude.{
  Bool, Eq, List, Option, any, false, filter, from_option, if◌then◌else◌, length, map, nat_beq,
  nat_eq, none, not, some, string_eq, take, ℕ, ◌&&◌, [], ◌∷◌,
}
use did_btcr2_js.Aggregation.Cohort.{
  CohortError, fallback_leaf_not_found, no_cohort_keys, not_enough_fallback_signatures,
  prevout_script_mismatch, same_bytes, same_bytes_iff, taproot_error,
}
use did_btcr2_js.Aggregation.Recovery.{
  Payment, Taproot, build_fallback_leaf, build_recovery_leaves, resolve_fallback_threshold,
  tap_leaf_hash, taproot_leaf_version, x_only,
}
use did_btcr2_js.Common.Number.{Number, at_least, natural}
use did_btcr2_js.Smt.Tree.{leaf_hash}
use did_btcr2_js.Prelude.Dict.{Dict, get, has, set}
use did_btcr2_js.Prelude.Result.{Result, guard, or_throw, ◌>>=◌, ◌>>◌}
use Prim.Native.String.{String}
use did_btcr2_js.Smt.Hash.{Bytes}

pub record FallbackSignature : Type 0 where
  pub pub_key : Bytes
  pub signature : Bytes

-- What @scure/btc-signer and @noble/curves do with a transaction. `schnorr_verify` takes a signature, a
-- message and a key (`none` when it throws); `preimage` is preimageWitnessV1 with SIGHASH_DEFAULT for
-- one spent output and a leaf; `finalize` is updateInput with the leaf's entry and the signatures
-- (key, leaf hash, signature), then finalize.
pub record Spender : Type 0 where
  pub taproot : Taproot
  pub schnorr_verify : Bytes → Bytes → Bytes → Option Bool
  pub preimage : Bytes → ℕ → Bytes → ℕ → Bytes → ℕ → Bytes
  pub finalize : Bytes → ℕ → Bytes × Bytes → List (Bytes × Bytes × Bytes) → Option Bytes

instance abbrev pub bytes_eq : Eq Bytes
bytes_eq = record { beq = same_bytes; beq_iff = same_bytes_iff }

-- The parameters of `buildFallbackSpend`; `input_index` is 0 where it is left out.
pub record FallbackSpendParams : Type 0 where
  pub pending_tx : Bytes
  pub input_index : ℕ
  pub cohort_keys : List Bytes
  pub fallback_threshold : Option Number
  pub recovery_key : Bytes
  pub recovery_sequence : Number
  pub funding_model : String
  pub network : String
  pub prev_out_script : Bytes
  pub prev_out_value : ℕ
  pub signatures : List FallbackSignature

-- `scriptVer.slice(0, scriptVer.length - 1)`
unfoldable pub drop_last : Bytes → Bytes
drop_last [] = []
drop_last (x ∷ []) = []
drop_last (x ∷ y ∷ ys) = x ∷ drop_last (y ∷ ys)

-- The entry of `tapLeafScript` that holds the leaf.
unfoldable pub find_leaf : Bytes → List (Bytes × Bytes) → Option (Bytes × Bytes)
find_leaf leaf [] = none
find_leaf leaf ((control, script) ∷ rest) =
    if same_bytes (drop_last script) leaf then some (control, script) else find_leaf leaf rest

-- `Array.slice(0, k)` for the number k.
unfoldable pub take_number : Number → List Bytes → List Bytes
take_number (natural k) keys = take k keys
take_number k keys = keys

-- The `k` keys, in the order of the cohort's keys, and their signatures.
abbrev pub chosen : List Bytes → Number → Dict Bytes Bytes → List Bytes
chosen keys k accepted = take_number k (filter (λ key. has key accepted) keys)

abbrev pub signed_by : Bytes → Dict Bytes Bytes → Bytes → Bytes × Bytes × Bytes
signed_by leaf_hash accepted key = (key, leaf_hash, from_option [] (get key accepted))

module _ (w : Spender) where
  unfoldable pub fallback_sighash : Bytes → ℕ → Bytes → ℕ → Bytes → Bytes
  fallback_sighash tx input_index script value leaf =
      w.preimage tx input_index script value leaf taproot_leaf_version

  -- `schnorr.verify` within `try ... catch { false }`
  abbrev pub verifies : Bytes → Bytes → Bytes → Bool
  verifies signature message key = from_option false (w.schnorr_verify signature message key)

  -- The tests that a signature passes before it is kept.
  unfoldable pub is_acceptable : List Bytes → Bytes → Dict Bytes Bytes → FallbackSignature → Bool
  is_acceptable keys sighash accepted s =
      nat_beq (length s.pub_key) 32
      && nat_beq (length s.signature) 64
      && any (λ k. same_bytes k s.pub_key) keys
      && not (has s.pub_key accepted)
      && verifies s.signature sighash s.pub_key

  -- The loop over the signatures.
  unfoldable pub accept :
      List Bytes → Bytes → List FallbackSignature → Dict Bytes Bytes → Dict Bytes Bytes
  accept keys sighash [] accepted = accepted
  accept keys sighash (s ∷ rest) accepted = accept keys sighash rest (
      if is_acceptable keys sighash accepted s
      then set s.pub_key s.signature accepted
      else accepted)

  -- From the reconstructed output on.
  unfoldable pub spend_payment : FallbackSpendParams → Number → Payment → Result CohortError Bytes
  spend_payment p k payment = do
    guard (same_bytes payment.script p.prev_out_script) prevout_script_mismatch
    leaf ← build_fallback_leaf w.taproot p.cohort_keys k
    entry ← or_throw (find_leaf leaf payment.tap_leaf_script) fallback_leaf_not_found
    let keys = map x_only (w.taproot.sort_keys p.cohort_keys)
    let sighash =
        fallback_sighash p.pending_tx p.input_index p.prev_out_script p.prev_out_value leaf
    let accepted = accept keys sighash p.signatures []
    guard (at_least (length accepted) k) not_enough_fallback_signatures
    or_throw
        (w.finalize p.pending_tx p.input_index entry (
          map (signed_by (tap_leaf_hash w.taproot leaf taproot_leaf_version) accepted)
            (chosen keys k accepted)))
        taproot_error

  unfoldable pub build_fallback_spend : FallbackSpendParams → Result CohortError Bytes
  build_fallback_spend p = do
    guard (not (nat_beq (length p.cohort_keys) 0)) no_cohort_keys
    let k = resolve_fallback_threshold p.fallback_threshold (length p.cohort_keys)
    internal_key ←
        or_throw (w.taproot.key_aggregate (w.taproot.sort_keys p.cohort_keys)) taproot_error
    leaves ←
        build_recovery_leaves w.taproot p.funding_model p.recovery_key p.recovery_sequence
          p.cohort_keys k
    payment ← or_throw (w.taproot.p2tr internal_key leaves p.network) taproot_error
    spend_payment p k payment
