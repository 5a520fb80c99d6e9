-- ===== src/Aggregation/Recovery.antt =====
-- packages/aggregation/src/core/recovery-policy.ts: the two leaves of a beacon output, and the
-- parameters that they are built from. What @scure/btc-signer and @noble/curves compute is the record
-- `Taproot`; `none` stands for a throw.
use did_btcr2_js.Aggregation.Cohort.{
  CohortError, invalid_cohort_key, invalid_fallback_threshold, invalid_recovery_key,
  invalid_recovery_sequence, no_cohort_keys, taproot_error, unknown_funding_model,
  unsupported_funding_model,
}
use did_btcr2_js.Prelude.{
  Bool, List, Option, [], all, drop, if◌then◌else◌, leb, length, ltb, nat_beq, nat_eq, none, not,
  some, string_eq, ℕ, ◌%◌, ◌-◌, ◌/◌, ◌==◌, ◌||◌, ◌∷◌, map,
}
use did_btcr2_js.Common.Number.{Number, above, below, is_integer, natural}
use Prim.Native.String.{String}
use did_btcr2_js.Prelude.Result.{Result, err, guard, ok, or_throw, ◌>>=◌, ◌>>◌}
use did_btcr2_js.Aggregation.Conditions.{max_recovery_sequence}
use did_btcr2_js.Smt.Hash.{Bytes}

-- What `Script.encode` is given.
pub data ScriptItem : Type 0 where
  number : Number → ScriptItem
  opcode : String → ScriptItem
  bytes : Bytes → ScriptItem

-- What `p2tr` returns: each entry of `tapLeafScript` is a control block with a script, the leaf
-- version at its end.
pub record Payment : Type 0 where
  pub address : Option String
  pub script : Bytes
  pub tap_merkle_root : Bytes
  pub tap_leaf_script : List (Bytes × Bytes)

-- `key_aggregate` is keyAggExport after keyAggregate, `multisig_script` the script of p2tr_ms,
-- `p2tr` takes the internal key, the scripts of the leaves and the name of the network.
pub record Taproot : Type 0 where
  pub sort_keys : List Bytes → List Bytes
  pub key_aggregate : List Bytes → Option Bytes
  pub multisig_script : Number → List Bytes → Option Bytes
  pub encode_script : List ScriptItem → Bytes
  pub p2tr : Bytes → List Bytes → String → Option Payment
  pub tagged_hash : String → Bytes → Bytes
  pub concat_bytes : List Bytes → Bytes

abbrev pub taproot_leaf_version : ℕ
taproot_leaf_version = 0xc0

-- `n & 0xff`, `(n >> 8) & 0xff` and so on are written as quotients and remainders.
unfoldable pub compact_size : ℕ → Bytes
compact_size n =
    if ltb n 0xfd
    then n ∷ []
    else if leb n 0xffff
    then 0xfd ∷ (n % 256) ∷ (n / 256 % 256) ∷ []
    else 0xfe ∷ (n % 256) ∷ (n / 256 % 256) ∷ (n / 65536 % 256) ∷ (n / 16777216 % 256) ∷ []

-- `key.slice(1)`
abbrev pub x_only : Bytes → Bytes
x_only key = drop 1 key

unfoldable pub resolve_fallback_threshold : Option Number → ℕ → Number
resolve_fallback_threshold none n = natural (if ltb 1 (n - 1) then n - 1 else 1)
resolve_fallback_threshold (some advertised) n = advertised

-- `!Number.isInteger(x) || x < 1 || x > most`
abbrev pub is_out : ℕ → Number → Bool
is_out most x = not (is_integer x) || below x 1 || above x most

unfoldable pub assert_fallback_params : List Bytes → Number → Result CohortError (Unit {0})
assert_fallback_params cohort_keys threshold = do
  guard (not (nat_beq (length cohort_keys) 0)) no_cohort_keys
  guard (all (λ key. nat_beq (length key) 33) cohort_keys) invalid_cohort_key
  guard (not (is_out (length cohort_keys) threshold)) invalid_fallback_threshold

unfoldable pub assert_recovery_params : Bytes → Number → Result CohortError (Unit {0})
assert_recovery_params recovery_key recovery_sequence = do
  guard (nat_beq (length recovery_key) 32) invalid_recovery_key
  guard (not (is_out max_recovery_sequence recovery_sequence)) invalid_recovery_sequence

module _ (t : Taproot) where
  unfoldable pub tap_leaf_hash : Bytes → ℕ → Bytes
  tap_leaf_hash script leaf_version =
      t.tagged_hash "TapLeaf"
        (t.concat_bytes ((leaf_version ∷ []) ∷ compact_size (length script) ∷ script ∷ []))

  unfoldable pub build_fallback_leaf : List Bytes → Number → Result CohortError Bytes
  build_fallback_leaf cohort_keys threshold = do
    assert_fallback_params cohort_keys threshold
    or_throw (t.multisig_script threshold (map x_only (t.sort_keys cohort_keys))) taproot_error

  unfoldable pub build_recovery_script : Bytes → Number → Result CohortError Bytes
  build_recovery_script recovery_key recovery_sequence = do
    assert_recovery_params recovery_key recovery_sequence
    ok (
        t.encode_script (
          number recovery_sequence
          ∷ opcode "CHECKSEQUENCEVERIFY"
          ∷ opcode "DROP"
          ∷ bytes recovery_key
          ∷ opcode "CHECKSIG"
          ∷ []))

  -- `funding_model` may be any text: the `default` branch of the switch.
  unfoldable pub build_recovery_leaves :
      String → Bytes → Number → List Bytes → Number → Result CohortError (List Bytes)
  build_recovery_leaves model recovery_key recovery_sequence cohort_keys threshold =
      if model == "operator-funded"
      then (do
        fallback ← build_fallback_leaf cohort_keys threshold
        recovery ← build_recovery_script recovery_key recovery_sequence
        ok (fallback ∷ recovery ∷ []))
      else if model == "participant-funded"
      then err unsupported_funding_model
      else err unknown_funding_model
