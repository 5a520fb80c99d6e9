-- ===== src/Aggregation/Service/Fallback.antt =====
-- packages/aggregation/src/service/service.ts: the handler of the signatures of the fallback path.
use did_btcr2_js.Prelude.{
  Bool, Option, [], false, from_option, length, map, nat_beq, nat_eq, some, string_eq, true, ℕ,
  ◌&&◌, ◌∷◌, none,
}
use did_btcr2_js.Aggregation.Session.{Session}
use did_btcr2_js.Prelude.Step.{call, when, when_some}
use did_btcr2_js.Aggregation.FallbackSpend.{
  FallbackSignature, FallbackSpendParams, build_fallback_spend, fallback_sighash, verifies,
}
use did_btcr2_js.Aggregation.Service.{
  Action, CohortState, Host, cohort_error, complete, fallback_requested, is_in, script_path,
  update_malformed, update_verification_failed,
}
use did_btcr2_js.Aggregation.Cohort.Address.{effective_fallback_threshold}
use did_btcr2_js.Prelude.Dict.{Dict, get, set}
use did_btcr2_js.Aggregation.Messages.{Body, Message}
use did_btcr2_js.Common.Number.{at_least, nan}
use did_btcr2_js.Smt.Hash.{Bytes}
use did_btcr2_js.Aggregation.Service.Handlers.{is_session, or_reject, reject}
use did_btcr2_js.Aggregation.Service.Signing.{fallback_leaf_of, first_prev_out}
use did_btcr2_js.Aggregation.Recovery.{x_only}
use Prim.Native.String.{String}
use did_btcr2_js.Prelude.Result.{ok}

-- `every` over the bytes of the member's key, `i` beyond the end being undefined.
unfoldable pub starts_with : Bytes → Bytes → Bool
starts_with [] key = true
starts_with (x ∷ xs) [] = false
starts_with (x ∷ xs) (y ∷ ys) = nat_beq x y && starts_with xs ys

unfoldable pub spend_params :
    CohortState → Session → Bytes × ℕ → Dict String FallbackSignature → FallbackSpendParams
spend_params s session (script, value) signatures = record {
  pending_tx = session.pending_tx;
  input_index = 0;
  cohort_keys = k.cohort_keys;
  fallback_threshold = some (effective_fallback_threshold k);
  recovery_key = from_option [] k.recovery_key;
  recovery_sequence = from_option nan k.recovery_sequence;
  funding_model = k.funding_model;
  network = k.network;
  prev_out_script = script;
  prev_out_value = value;
  signatures = map (λ x. x.1) signatures;
}
  where
    open s use {cohort as k}

-- `buildFallbackSpend` finalizes the transaction of the session itself.
unfoldable pub store_spend : String → Session → Bytes → Action (Unit {0})
store_spend id session signed_tx s = (
  ok tt,
  record s {
    signing_session = some (record session { pending_tx = signed_tx });
    result =
        some (record { cohort_id = id; signature = []; signed_tx = signed_tx; path = script_path });
    phase = complete;
  },
)

unfoldable pub store_fallback_signature :
    Host → String → Session → Bytes × ℕ → Dict String FallbackSignature → Action (Unit {0})
store_fallback_signature host id session prev_out signatures s =
    when (at_least (length signatures) (effective_fallback_threshold s.cohort))
      (call cohort_error
        (build_fallback_spend host.spender (spend_params s session prev_out signatures))
        (store_spend id session))
      (record s { fallback_signatures = some signatures })

-- `schnorr.verify` of a signature of 64 bytes, false where it throws.
unfoldable pub is_fallback_signature : Host → Session → Bytes × ℕ → Bytes → Bytes → Bytes → Bool
is_fallback_signature host session (script, value) leaf signer_pk signature =
    nat_beq (length signature) 64
    && verifies host.spender signature
        (fallback_sighash host.spender session.pending_tx 0 script value leaf) signer_pk

-- `!signerPk || !fallbackSignature`
unfoldable pub both_fields : Option Bytes → Option Bytes → Option (Bytes × Bytes)
both_fields none signature = none
both_fields (some key) none = none
both_fields (some key) (some signature) = some (key, signature)

unfoldable pub signed_fields : Body → Option (Bytes × Bytes)
signed_fields b = both_fields b.signer_pk b.fallback_signature

-- Once the fields are there: the signature is bound to the sender's own cohort key.
unfoldable pub check_fallback :
    Host
    → String
    → String
    → Session
    → Dict String FallbackSignature
    → Bytes × ℕ
    → Bytes × Bytes
    → Bytes
    → Action (Unit {0})
check_fallback host id from session signatures prev_out (signer_pk, signature) member_key s =
    or_reject (nat_beq (length signer_pk) 32 && starts_with (x_only member_key) signer_pk) from
      update_malformed
      (call cohort_error (fallback_leaf_of host s.cohort) (λ leaf.
        or_reject (is_fallback_signature host session prev_out leaf signer_pk signature) from
          update_verification_failed
          (store_fallback_signature host id session prev_out
            (set from (record { pub_key = signer_pk; signature = signature }) signatures))))
      s

unfoldable pub with_member : String → (Bytes → Action (Unit {0})) → Option Bytes → Action (Unit {0})
with_member from step none = reject from update_malformed
with_member from step (some key) = step key

unfoldable pub handle_fallback_signature : Host → String → Message → Action (Unit {0})
handle_fallback_signature host id m s =
    when_some s.signing_session
      (λ session. when_some s.fallback_signatures (λ signatures.
        when (is_in s.phase fallback_requested) (
          when (is_session session m.body.session_id) (
            when_some (signed_fields m.body) (λ fields.
              when_some (first_prev_out session) (λ prev_out.
                with_member m.from
                  (check_fallback host id m.from session signatures prev_out fields)
                  (get m.from s.cohort.participant_keys)))))))
      s
