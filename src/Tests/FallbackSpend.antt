-- ===== src/Tests/FallbackSpend.antt =====
-- A spend of the fallback leaf by one of two members.
use did_btcr2_js.Prelude.{nat_eq, string_eq, [], refl, replicate, some, ℕ, ◌∷◌, ◌≡◌}
use did_btcr2_js.Tests.ToyHost.{spender}
use did_btcr2_js.Prelude.Result.{ok}
use did_btcr2_js.Aggregation.FallbackSpend.{
  bytes_eq, accept, drop_last, fallback_sighash, find_leaf, is_acceptable, spend_payment,
  take_number, FallbackSpendParams, build_fallback_spend,
}
use did_btcr2_js.Smt.Hash.{Bytes}
use did_btcr2_js.Aggregation.FallbackSpend.Spend.{IsSpend, build_fallback_spend-IsSpend}
use did_btcr2_js.Common.Number.{above, at_least, below, is_integer, less, natural}
use did_btcr2_js.Aggregation.Recovery.{
  assert_fallback_params, assert_recovery_params, build_fallback_leaf, build_recovery_leaves,
  build_recovery_script, compact_size, resolve_fallback_threshold, tap_leaf_hash,
}
use did_btcr2_js.Prelude.Dict.{get, set}
use did_btcr2_js.Aggregation.Cohort.{same_bytes}

abbrev key_of : ℕ → Bytes
key_of n = replicate 32 n

-- Two keys with a prefix byte; the second member signs, and one that is not a member.
abbrev params : FallbackSpendParams
params = record {
  pending_tx = 1 ∷ [];
  input_index = 0;
  cohort_keys = (2 ∷ key_of 1) ∷ (2 ∷ key_of 2) ∷ [];
  fallback_threshold = some (natural 1);
  recovery_key = key_of 9;
  recovery_sequence = natural 144;
  funding_model = "operator-funded";
  network = "regtest";
  prev_out_script = 8 ∷ [];
  prev_out_value = 1000;
  signatures =
      record { pub_key = key_of 7; signature = replicate 64 0 }
      ∷ record { pub_key = key_of 2; signature = replicate 64 0 }
      ∷ [];
}

spend_test : build_fallback_spend spender params ≡ ok (1 ∷ 2 ∷ [])
unfolding build_fallback_spend build_recovery_leaves build_fallback_leaf build_recovery_script
    assert_fallback_params assert_recovery_params is_integer resolve_fallback_threshold
    spend_payment find_leaf drop_last accept is_acceptable fallback_sighash take_number
    tap_leaf_hash at_least compact_size below above less same_bytes get set
spend_test = refl

build_fallback_spend-IsSpend_example : IsSpend spender params (1 ∷ 2 ∷ [])
build_fallback_spend-IsSpend_example =
    build_fallback_spend-IsSpend spender params (1 ∷ 2 ∷ []) spend_test
