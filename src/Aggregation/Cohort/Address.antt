-- ===== src/Aggregation/Cohort/Address.antt =====
-- packages/aggregation/src/core/cohort.ts: the keys of a cohort, the threshold of its fallback leaf, its
-- beacon address, and the check that a participant makes of both.
use did_btcr2_js.Aggregation.Cohort.{
  Cohort, CohortError, beacon_address_error, beacon_address_mismatch, cohort_validation_error,
  no_cohort_keys, no_recovery_params, taproot_error,
}
use did_btcr2_js.Aggregation.Recovery.{
  Payment, Taproot, build_recovery_leaves, resolve_fallback_threshold,
}
use did_btcr2_js.Prelude.{
  List, Option, [], if◌then◌else◌, length, map, nat_beq, nat_eq, none, not, some, string_eq, ◌==◌,
  ◌∷◌,
}
use Prim.Native.String.{String}
use did_btcr2_js.Prelude.Result.{Result, err, guard, ok, or_throw, ◌>>=◌, ◌>>◌}
use did_btcr2_js.Prelude.Dict.{includes}
use did_btcr2_js.Common.Number.{Number, natural}
use did_btcr2_js.Smt.Hash.{Bytes}

unfoldable pub effective_fallback_threshold : Cohort → Number
effective_fallback_threshold k =
    if nat_beq (length k.cohort_keys) 0
    then natural 0
    else resolve_fallback_threshold k.fallback_threshold (length k.cohort_keys)

-- `!recoveryKey || recoveryKey.length === 0 || recoverySequence === undefined`
unfoldable pub params_of : Option Bytes → Option Number → Option (Bytes × Number)
params_of none sequence = none
params_of (some key) none = none
params_of (some key) (some sequence) = if nat_beq (length key) 0 then none else some (key, sequence)

unfoldable pub recovery_params : Cohort → Option (Bytes × Number)
recovery_params k = params_of k.recovery_key k.recovery_sequence

module _ (t : Taproot) where
  -- The setter of `cohortKeys`.
  unfoldable pub set_cohort_keys : Cohort → List Bytes → Cohort
  set_cohort_keys k keys = record k { cohort_keys = t.sort_keys keys }

  -- The last step: the fields are written before the address is tested.
  unfoldable pub store_payment : Cohort → Bytes → Payment → Result CohortError String × Cohort
  store_payment k internal_key payment =
      let tweaked = record k {
        internal_key = internal_key;
        tap_merkle_root = payment.tap_merkle_root;
        tap_tweak =
            t.tagged_hash "TapTweak" (t.concat_bytes (internal_key ∷ payment.tap_merkle_root ∷ []));
      } in
      elim payment.address [
        | none ↦ (err beacon_address_error, tweaked)
        | some address ↦ (ok address, record tweaked { beacon_address = address })
      ]

  -- Up to the call of `p2tr`.
  unfoldable pub beacon_payment : Cohort → Result CohortError (Bytes × Payment)
  beacon_payment k = do
    guard (not (nat_beq (length k.cohort_keys) 0)) no_cohort_keys
    params ← or_throw (recovery_params k) no_recovery_params
    internal_key ← or_throw (t.key_aggregate k.cohort_keys) taproot_error
    leaves ←
        build_recovery_leaves t k.funding_model params.0 params.1 k.cohort_keys
          (resolve_fallback_threshold k.fallback_threshold (length k.cohort_keys))
    payment ← or_throw (t.p2tr internal_key leaves k.network) taproot_error
    ok (internal_key, payment)

  unfoldable pub store_address :
      Cohort → Result CohortError (Bytes × Payment) → Result CohortError String × Cohort
  store_address k (err e) = (err e, k)
  store_address k (ok (internal_key, payment)) = store_payment k internal_key payment

  -- `computeBeaconAddress`: the cohort comes back after a throw too.
  unfoldable pub compute_beacon_address : Cohort → Result CohortError String × Cohort
  compute_beacon_address k = store_address k (beacon_payment k)

  -- `validateMembership`; the keys come as hexadecimal texts, which `hex_to_bytes` reads.
  unfoldable pub check_address : String → Result CohortError String → Result CohortError (Unit {0})
  check_address expected (err e) = err e
  check_address expected (ok computed) = guard (computed == expected) beacon_address_mismatch

  unfoldable pub validate_membership :
      (String → Bytes)
      → Cohort
      → String
      → List String
      → String
      → Result CohortError (Unit {0}) × Cohort
  validate_membership hex_to_bytes k participant_pk_hex cohort_keys_hex expected =
      let (computed, k') =
        compute_beacon_address (set_cohort_keys k (map hex_to_bytes cohort_keys_hex)) in
      if includes participant_pk_hex cohort_keys_hex
      then (check_address expected computed, k')
      else (err cohort_validation_error, k)
