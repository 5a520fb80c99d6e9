-- ===== src/Tests/Participant.antt =====
-- A participant that has submitted an update, and one that is asked to sign.
use did_btcr2_js.Prelude.{replicate, [], nat_eq, refl, some, string_eq, true, ◌∷◌, ◌≡◌, none}
use did_btcr2_js.Tests.ToyHost.{client}
use did_btcr2_js.Common.Json.{null}
use did_btcr2_js.Aggregation.Participant.Anchored.{
  FallbackAnchored, NonceAnchored, approvals-IsAnchored,
}
use did_btcr2_js.Aggregation.Participant.Messages.{handle_distribute_aggregated_data}
use did_btcr2_js.Aggregation.Participant.Signal.{any_signal_matches, with_signal}
use did_btcr2_js.Prelude.Result.{ok}
use did_btcr2_js.Aggregation.Messages.{
  create_fallback_signature_message, create_nonce_contribution_message, Message,
  create_distribute_aggregated_data_message,
}
use did_btcr2_js.Prelude.Dict.{get}
use did_btcr2_js.Aggregation.Participant.{
  awaiting_fallback_sig, MemberState, PendingValidation, SigningRequest, awaiting_signing,
  awaiting_validation, participant_phase_number, update_submitted,
}
use did_btcr2_js.Aggregation.Participant.Actions.Signing.{
  approve_fallback_action, approve_nonce_action, read_transaction, anchored, signal_of,
  tx_embeds_signal, embeds_expected, embeds, is_return_of, open_signing, store_nonce_sent,
  sign_fallback,
}
use did_btcr2_js.Prelude.Step.{call, need, need_some}
use did_btcr2_js.Aggregation.Session.{generate_nonce_contribution, new_session}
use did_btcr2_js.Aggregation.Recovery.{
  assert_fallback_params, build_fallback_leaf, resolve_fallback_threshold,
}
use did_btcr2_js.Aggregation.FallbackSpend.{fallback_sighash}
use did_btcr2_js.Aggregation.Cohort.Address.{effective_fallback_threshold}
use did_btcr2_js.Common.Number.{above, below, is_integer, less}
use did_btcr2_js.Tests.Toy.{sum_hash}
use did_btcr2_js.Common.Number.{natural}
use did_btcr2_js.Aggregation.Cohort.{Cohort, same_bytes}

abbrev blank : MemberState
blank = record {
  phase = update_submitted;
  cohort_id = "c";
  service_did = "did:s";
  advert = none;
  cohort = none;
  submitted_update = some null;
  included = some true;
  validation = none;
  signing_request = none;
  fallback_request = none;
  signing_session = none;
}

abbrev distribution : Message
distribution =
    create_distribute_aggregated_data_message "did:s" "did:a" "c" "CASBeacon" "01"
      (some (("did:a", "hash") ∷ [])) none

body_test :
    (distribution.body.beacon_type ≡ some "CASBeacon")
    × (distribution.body.cas_announcement ≡ some (("did:a", "hash") ∷ []))
unfolding create_distribute_aggregated_data_message
body_test = (refl, refl)

any_signal_matches_example :
    (v : PendingValidation) × (s' : MemberState) × (handle_distribute_aggregated_data client "c"
        (with_signal "of another announcement" distribution)
        blank
      ≡ (ok tt, s'))
    × (s'.phase ≡ awaiting_validation)
    × (s'.validation ≡ some v)
    × (v.matches ≡ true)
    × (v.signal_bytes_hex ≡ "of another announcement")
any_signal_matches_example =
    any_signal_matches client "c" distribution blank null (("did:a", "hash") ∷ [])
      "of another announcement" refl (unfold participant_phase_number in refl) refl refl body_test.0
      body_test.1 (unfold get in refl)

abbrev validated : PendingValidation
validated = record {
  cohort_id = "c";
  beacon_type = "CASBeacon";
  signal_bytes_hex = "01";
  cas_announcement = none;
  smt_proof = none;
  expected_hash = "hash";
  matches = true;
  included = true;
}

abbrev request : SigningRequest
request = record {
  cohort_id = "c";
  session_id = "s";
  pending_tx_hex = "00";
  prev_out_script_hex = "08";
  prev_out_value = "1";
}

abbrev own_cohort : Cohort
own_cohort = record {
  id = "c";
  service_did = "did:s";
  min_participants = natural 2;
  network = "regtest";
  beacon_type = "CASBeacon";
  participants = [];
  participant_keys = [];
  cohort_keys = replicate 33 1 ∷ replicate 33 2 ∷ [];
  tap_tweak = [];
  internal_key = [];
  tap_merkle_root = [];
  recovery_key = none;
  recovery_sequence = none;
  funding_model = "operator-funded";
  fallback_threshold = some (natural 1);
  beacon_address = "address";
  pending_updates = [];
  non_included = [];
  cas_announcement = none;
  signal_bytes = none;
  validation_acks = [];
  validation_rejections = [];
}

-- A request of the key path, after the data has been approved.
abbrev key_path : MemberState
key_path = record blank {
  phase = awaiting_signing;
  cohort = some own_cohort;
  validation = some validated;
  signing_request = some request;
}

-- A request of the fallback.
abbrev script_path : MemberState
script_path = record blank {
  phase = awaiting_fallback_sig;
  cohort = some own_cohort;
  validation = some validated;
  fallback_request = some (record { request = request; fallback_leaf_script_hex = "33" });
}

abbrev contribution : Message
contribution = create_nonce_contribution_message "did:a" "did:s" "c" "s" []

nonce_test : (approve_nonce_action client "c" key_path).0 ≡ ok (contribution ∷ [])
unfolding approve_nonce_action participant_phase_number need_some need read_transaction anchored
    signal_of tx_embeds_signal embeds_expected embeds is_return_of same_bytes open_signing call
    generate_nonce_contribution store_nonce_sent new_session create_nonce_contribution_message
nonce_test = refl

abbrev fallback_message : Message
fallback_message = create_fallback_signature_message "did:a" "did:s" "c" "s" [] (sum_hash (51 ∷ []))

fallback_test : (approve_fallback_action client "c" script_path).0 ≡ ok (fallback_message ∷ [])
unfolding approve_fallback_action participant_phase_number need_some need read_transaction anchored
    signal_of tx_embeds_signal embeds_expected embeds is_return_of same_bytes call
    build_fallback_leaf assert_fallback_params is_integer effective_fallback_threshold sign_fallback
    fallback_sighash below above less resolve_fallback_threshold create_fallback_signature_message
fallback_test = refl

approvals-IsAnchored_example : NonceAnchored client key_path × FallbackAnchored client script_path
approvals-IsAnchored_example =
    approvals-IsAnchored client "c" key_path script_path (contribution ∷ []) (fallback_message ∷ [])
      nonce_test fallback_test
