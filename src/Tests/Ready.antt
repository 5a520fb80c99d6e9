-- ===== src/Tests/Ready.antt =====
-- The end of keygen for one member, on both sides.
use did_btcr2_js.Prelude.{
  ap, if◌then◌else◌, nat_eq, replicate, string_eq, ◌==◌, ◌∙◌, ◌≡◌, All, [], refl, some, ◌∷◌, none,
}
use did_btcr2_js.Tests.ToyHost.{client, host, config, conditions}
use did_btcr2_js.Aggregation.Ready.Address.{SameTerms, TaprootLaws}
use did_btcr2_js.Aggregation.Service.{
  service_phase_number, Host, cohort_set, CohortState, advertised,
}
use did_btcr2_js.Aggregation.Cohort.{Cohort}
use did_btcr2_js.Aggregation.Participant.{
  Client, CohortAdvert, MemberState, opted_in, participant_phase_number,
}
use did_btcr2_js.Aggregation.Ready.Agreement.{Accepts, IsMember, finalize_action-Accepts}
use did_btcr2_js.Prelude.Result.{Holds}
use did_btcr2_js.Aggregation.Participant.Messages.{new_member}
use did_btcr2_js.Aggregation.Participant.Actions.{new_member_cohort}
use did_btcr2_js.Aggregation.Service.Operator.{store_keygen, finalize_action, new_cohort, new_state}
use did_btcr2_js.Smt.Hash.{Bytes}
use did_btcr2_js.Aggregation.Cohort.Address.{
  beacon_payment, compute_beacon_address, params_of, recovery_params, store_address, store_payment,
}
use did_btcr2_js.Aggregation.Recovery.{
  assert_fallback_params, assert_recovery_params, build_fallback_leaf, build_recovery_leaves,
  build_recovery_script, resolve_fallback_threshold,
}
use did_btcr2_js.Common.Number.{above, below, is_integer}
use did_btcr2_js.Aggregation.Messages.{create_cohort_ready_message}
use did_btcr2_js.Prelude.Step.{need}

abbrev key : Bytes
key = replicate 33 1

abbrev keygen_host : Host
keygen_host = record host { hex_to_bytes = λ text. replicate 32 0 }

abbrev keygen_client : Client
keygen_client = record client {
  public_key = key;
  bytes_to_hex = λ b. "key";
  hex_to_bytes = λ text. if text == "key" then some key else some (replicate 32 0);
}

-- Two members have been accepted.
abbrev full_state : CohortState
full_state = record (new_state keygen_host "c" config) {
  phase = advertised;
  accepted_participants = "did:a" ∷ "did:b" ∷ [];
  cohort = record (new_cohort keygen_host "c" config) {
    participants = "did:a" ∷ "did:b" ∷ [];
    participant_keys = ("did:a", key) ∷ ("did:b", key) ∷ [];
    cohort_keys = key ∷ key ∷ [];
  };
}

abbrev advert : CohortAdvert
advert = record {
  advert = record {
    cohort_id = "c";
    network = "regtest";
    communication_pk = 2 ∷ [];
    conditions = conditions;
  };
  service_did = "did:s";
}

abbrev own : Cohort
own =
    new_member_cohort keygen_client "c" (new_member advert.advert "did:s") advert
      (some (replicate 32 0))

-- The participant's state after `joinCohort`.
abbrev opted_state : MemberState
opted_state = record (new_member advert.advert "did:s") { phase = opted_in; cohort = some own }

own-SameTerms :
    SameTerms full_state.cohort (record own { cohort_keys = full_state.cohort.cohort_keys })
unfolding new_cohort new_member_cohort new_member new_state
own-SameTerms = record {
  same_keys = refl;
  same_recovery_key = refl;
  same_sequence = refl;
  same_model = refl;
  same_threshold = refl;
  same_network = refl;
}

own-IsMember : IsMember keygen_client full_state.cohort own opted_state
unfolding participant_phase_number
own-IsMember = record {
  waits = refl;
  holds = refl;
  terms = own-SameTerms;
  listed = refl;
  reads = (refl, (refl, tt));
}

toy_laws : TaprootLaws keygen_client.spender.taproot
toy_laws = record {
  address_there = λ point leaves network p e empty.
      let q : some "address" ≡ some "" =
        ap (λ o. elim o [ none ↦ none | some x ↦ x.address ]) e ∙ empty in
      cc;
}

keygen_test : (finalize_action keygen_host "c" full_state).1.phase ≡ cohort_set
unfolding finalize_action new_state new_cohort need service_phase_number above below store_keygen
    compute_beacon_address store_address beacon_payment recovery_params params_of
    build_recovery_leaves build_fallback_leaf assert_fallback_params is_integer
    resolve_fallback_threshold build_recovery_script assert_recovery_params store_payment
    create_cohort_ready_message
keygen_test = refl

finalize_action-Accepts_example :
    Holds
      (λ ms.
        All
          (Accepts keygen_client opted_state
            (finalize_action keygen_host "c" full_state).1.cohort.beacon_address)
          ms)
      (finalize_action keygen_host "c" full_state).0
finalize_action-Accepts_example =
    finalize_action-Accepts keygen_host keygen_client "c" full_state own opted_state refl toy_laws
      refl own-IsMember
