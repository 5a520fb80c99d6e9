-- ===== src/Aggregation/Participant/Messages.antt =====
-- packages/aggregation/src/participant/participant.ts: `receive` and its handlers.
use did_btcr2_js.Prelude.{
  Bool, List, Option, [], false, from_option, if◌then◌else◌, is_some, map, nat_eq, not, some,
  string_eq, true, ◌||◌, none,
}
use did_btcr2_js.Aggregation.Participant.{
  Client, MemberAction, MemberState, Participant, ParticipantError, ParticipantPhase,
  SigningRequest, awaiting_fallback_sig, awaiting_partial_sig, awaiting_signing,
  awaiting_validation, clear_member, cohort_error, cohort_ready, complete, discovered, is_at,
  non_included, nonce_sent, opted_in, run_member, strategy_error, update_submitted, validation_sent,
}
use did_btcr2_js.Prelude.Result.{Result, err, ok}
use did_btcr2_js.Aggregation.Messages.{
  Body, Message, MessageType, aggregated_nonce, authorization_request, cohort_advert,
  distribute_aggregated_data, fallback_authorization_request, is_foreign, truthy,
}
use Prim.Native.String.{String}
use did_btcr2_js.Prelude.Dict.{get, has, set}
use did_btcr2_js.Aggregation.Strategy.{View, ViewResult, get_beacon_strategy}
use did_btcr2_js.Prelude.Step.{call, skip, when, when_some}
use did_btcr2_js.Aggregation.Cohort.{Cohort, CohortError}
use did_btcr2_js.Aggregation.Cohort.Address.{validate_membership}
use did_btcr2_js.Aggregation.Session.{Session}
use did_btcr2_js.Smt.Hash.{Bytes}
use did_btcr2_js.Common.Json.{Json}
use did_btcr2_js.Aggregation.Messages.Adverts.{Advert, cohort_advert_of}

unfoldable pub new_member : Advert → String → MemberState
new_member advert service_did = record {
  phase = discovered;
  cohort_id = advert.cohort_id;
  service_did = service_did;
  advert = some (record { advert = advert; service_did = service_did });
  cohort = none;
  submitted_update = none;
  included = none;
  validation = none;
  signing_request = none;
  fallback_request = none;
  signing_session = none;
}

-- An advert of a cohort that is known already is dropped.
unfoldable pub store_advert : String → Option Advert → Participant → Participant
store_advert from none participant = participant
store_advert from (some advert) participant =
    if has advert.cohort_id participant
    then participant
    else set advert.cohort_id (new_member advert from) participant

unfoldable pub handle_cohort_advert : Message → Participant → Participant
handle_cohort_advert m participant = store_advert m.from (cohort_advert_of m.body) participant

unfoldable pub store_membership : Result CohortError (Unit {0}) × Cohort → MemberAction (Unit {0})
store_membership (err e, k) s = (err (cohort_error e), record s { cohort = some k })
store_membership (ok _, k) s = (ok tt, record s { cohort = some k; phase = cohort_ready })

-- The keys go through their hexadecimal texts, which `hexToBytes` always reads.
unfoldable pub check_membership :
    Client → Cohort → String → List Bytes → Result CohortError (Unit {0}) × Cohort
check_membership client k address keys =
    validate_membership client.spender.taproot (λ text. from_option [] (client.hex_to_bytes text)) k
      (client.bytes_to_hex client.public_key) (map client.bytes_to_hex keys) address

unfoldable pub handle_cohort_ready : Client → Message → MemberAction (Unit {0})
handle_cohort_ready client m s =
    when_some s.cohort
      (λ k. when (is_at s.phase opted_in) (
        when_some (truthy m.body.beacon_address) (λ address.
          when_some m.body.cohort_keys
            (λ keys. store_membership (check_membership client k address keys)))))
      s

abbrev pub has_declined : MemberState → Bool
has_declined s = elim s.included [ none ↦ false | some b ↦ not b ]

-- `declined ? '' : canonicalHash(state.submittedUpdate!)`
unfoldable pub expected_hash_of : Client → Option Json → String
expected_hash_of client none = ""
expected_hash_of client (some update) = client.canonical.canonical_hash update

unfoldable pub view_as : Client → Body → Bool → Option Json → View
view_as client body declined update = record {
  participant_did = client.did;
  included = not declined;
  submitted_update = if declined then none else update;
  expected_hash = if declined then none else some (expected_hash_of client update);
  body = body;
}

unfoldable pub view_of : Client → Message → MemberState → View
view_of client m s = view_as client m.body (has_declined s) s.submitted_update

unfoldable pub store_validation_request :
    String → String → Message → View → ViewResult → MemberAction (Unit {0})
store_validation_request id beacon_type m v r s = (
  ok tt,
  record s {
    validation = some (record {
      cohort_id = id;
      beacon_type = beacon_type;
      signal_bytes_hex = from_option "" m.body.signal_bytes_hex;
      cas_announcement = r.cas_announcement;
      smt_proof = r.smt_proof;
      expected_hash = from_option "" v.expected_hash;
      matches = r.matches;
      included = v.included;
    });
    phase = awaiting_validation;
  },
)

unfoldable pub handle_distribute_aggregated_data :
    Client → String → Message → MemberAction (Unit {0})
handle_distribute_aggregated_data client id m s =
    when (is_at s.phase update_submitted || is_at s.phase non_included)
      (when (has_declined s || is_some s.submitted_update) (
        when_some (truthy m.body.beacon_type) (λ beacon_type.
          when_some (get_beacon_strategy beacon_type client.strategies) (λ strategy.
            call strategy_error (strategy.validate_participant_view (view_of client m s))
              (store_validation_request id beacon_type m (view_of client m s))))))
      s

-- The four texts of a request, where none is missing or empty.
unfoldable pub request_of :
    String → Option String → Option String → Option String → Option String → Option SigningRequest
request_of id (some session_id) (some tx) (some script) (some value) = some (record {
  cohort_id = id;
  session_id = session_id;
  pending_tx_hex = tx;
  prev_out_script_hex = script;
  prev_out_value = value;
})
request_of id _ _ _ _ = none

abbrev pub requested : String → Body → Option SigningRequest
requested id b =
    request_of id (truthy b.session_id) (truthy b.pending_tx) (truthy b.prev_out_script_hex)
      (truthy b.prev_out_value)

unfoldable pub store_request : SigningRequest → MemberAction (Unit {0})
store_request request s =
    (ok tt, record s { signing_request = some request; phase = awaiting_signing })

unfoldable pub handle_authorization_request : String → Message → MemberAction (Unit {0})
handle_authorization_request id m s =
    when_some s.cohort
      (λ k. when (is_at s.phase validation_sent) (when_some (requested id m.body) store_request)) s

unfoldable pub store_aggregated_nonce : Session → Bytes → MemberAction (Unit {0})
store_aggregated_nonce session nonce s = (
  ok tt,
  record s {
    signing_session = some (record session { aggregated_nonce = some nonce });
    phase = awaiting_partial_sig;
  },
)

unfoldable pub handle_aggregated_nonce : Message → MemberAction (Unit {0})
handle_aggregated_nonce m s =
    when_some s.signing_session
      (λ session.
        when (is_at s.phase nonce_sent)
          (when_some m.body.aggregated_nonce (store_aggregated_nonce session)))
      s

-- The phases from which the fallback is accepted.
abbrev pub accepts_fallback : ParticipantPhase → Bool
accepts_fallback p =
    is_at p validation_sent
    || is_at p awaiting_signing
    || is_at p nonce_sent
    || is_at p awaiting_partial_sig
    || is_at p complete

unfoldable pub store_fallback_request : SigningRequest → String → MemberAction (Unit {0})
store_fallback_request request leaf s = (
  ok tt,
  record cleared {
    fallback_request = some (record { request = request; fallback_leaf_script_hex = leaf });
    phase = awaiting_fallback_sig;
  },
)
  where
    cleared : MemberState
    cleared = clear_member s

unfoldable pub handle_fallback_authorization_request : String → Message → MemberAction (Unit {0})
handle_fallback_authorization_request id m s =
    when_some s.cohort
      (λ k. when (accepts_fallback s.phase) (
        when_some (requested id m.body) (λ request.
          when_some (truthy m.body.fallback_leaf_script_hex) (store_fallback_request request))))
      s

-- `switch(message.type)`, for a message that names the cohort id.
unfoldable pub handle_member : Client → String → Message → MessageType → MemberAction (Unit {0})
handle_member client id m MessageType.cohort_ready = handle_cohort_ready client m
handle_member client id m distribute_aggregated_data = handle_distribute_aggregated_data client id m
handle_member client id m authorization_request = handle_authorization_request id m
handle_member client id m aggregated_nonce = handle_aggregated_nonce m
handle_member client id m fallback_authorization_request =
    handle_fallback_authorization_request id m
handle_member client id m _ = skip

unfoldable pub receive_member :
    Client
    → Message
    → Option String
    → Participant
    → Result ParticipantError (Unit {0}) × Participant
receive_member client m none participant = (ok tt, participant)
receive_member client m (some id) participant =
    run_member id (handle_member client id m m.kind) (ok tt) participant (get id participant)

abbrev is_advert : MessageType → Bool
is_advert cohort_advert = true
is_advert _ = false

pub receive : Client → Message → Participant → Result ParticipantError (Unit {0}) × Participant
receive client m participant =
    if is_foreign m
    then (ok tt, participant)
    else if is_advert m.kind
    then (ok tt, handle_cohort_advert m participant)
    else receive_member client m (truthy m.body.cohort_id) participant
