-- ===== src/Aggregation/Participant/Actions.antt =====
-- packages/aggregation/src/participant/participant.ts: the methods by which the user joins a cohort,
-- submits or declines, and answers the validation.
pub mod Signing
use did_btcr2_js.Prelude.{
  Bool, List, Option, [], false, from_option, if◌then◌else◌, length, nat_beq, nat_eq, not, some,
  string_eq, true, ℕ, ◌&&◌, ◌==◌, ◌||◌, ◌∷◌, none,
}
use did_btcr2_js.Aggregation.Participant.{
  Client, CohortAdvert, MemberAction, MemberState, Participant, ParticipantError, SigningRequest,
  awaiting_fallback_sig, awaiting_partial_sig, awaiting_signing, awaiting_validation, cohort_error,
  cohort_ready, complete, discovered, failed, invalid_phase, is_at, missing_state, non_included,
  nonce_sent, opted_in, parse_error, run_user, session_error, signal_mismatch, update_submitted,
  validation_sent,
}
use did_btcr2_js.Aggregation.Messages.{
  Message, create_cohort_opt_in_message, create_fallback_signature_message,
  create_nonce_contribution_message, create_signature_authorization_message,
  create_submit_non_included_message, create_submit_update_message, create_validation_ack_message,
  truthy,
}
use did_btcr2_js.Aggregation.Recovery.{ScriptItem, build_fallback_leaf, bytes, opcode, x_only}
use did_btcr2_js.Aggregation.Session.{
  Session, SessionError, generate_nonce_contribution, generate_partial_signature, new_session,
}
use did_btcr2_js.Aggregation.FallbackSpend.{fallback_sighash}
use did_btcr2_js.Prelude.Step.{call, need, need_some}
use did_btcr2_js.Aggregation.Cohort.{Cohort, same_bytes}
use did_btcr2_js.Smt.Hash.{Bytes}
use Prim.Native.String.{String}
use did_btcr2_js.Common.Json.{Json}
use did_btcr2_js.Prelude.Result.{Result, err, ok}
use did_btcr2_js.Aggregation.Cohort.Address.{effective_fallback_threshold}
use did_btcr2_js.Resolver.Machine.{genesis_document}

unfoldable pub new_member_cohort :
    Client → String → MemberState → CohortAdvert → Option Bytes → Cohort
new_member_cohort client id s advert recovery_key = record {
  id = id;
  service_did = s.service_did;
  min_participants = c.min_participants;
  network = a.network;
  beacon_type = if c.beacon_type == "" then "CASBeacon" else c.beacon_type;
  participants = [];
  participant_keys = [];
  cohort_keys = [];
  tap_tweak = [];
  internal_key = [];
  tap_merkle_root = [];
  recovery_key = recovery_key;
  recovery_sequence = some c.recovery_sequence;
  funding_model = from_option "operator-funded" c.funding_model;
  fallback_threshold = c.fallback_threshold;
  beacon_address = "";
  pending_updates = [];
  non_included = [];
  cas_announcement = none;
  signal_bytes = none;
  validation_acks = [];
  validation_rejections = [];
}
  where
    open advert use {advert as a}
    open a use {conditions as c}

-- `advert.recoveryKey ? hexToBytes(advert.recoveryKey) : undefined`, `none` where it throws.
unfoldable pub recovery_key_of : Client → String → Option (Option Bytes)
recovery_key_of client text =
    if text == ""
    then some none
    else elim (client.hex_to_bytes text) [ none ↦ none | some key ↦ some (some key) ]

unfoldable pub store_join :
    Client → String → CohortAdvert → Option Bytes → MemberAction (List Message)
store_join client id advert recovery_key s = (
  ok (
      create_cohort_opt_in_message client.did s.service_did id client.public_key client.public_key
        client.genesis_document
      ∷ []),
  record s { cohort = some (new_member_cohort client id s advert recovery_key); phase = opted_in },
)

unfoldable pub join_action : Client → String → MemberAction (List Message)
join_action client id s =
    need (is_at s.phase discovered) invalid_phase
      (need_some s.advert missing_state (λ advert.
        need_some (recovery_key_of client advert.advert.conditions.recovery_key) parse_error
          (store_join client id advert)))
      s

pub join_cohort :
    Client → String → Participant → Result ParticipantError (List Message) × Participant
join_cohort client id participant = run_user id (join_action client id) participant

unfoldable pub submit_action : Client → String → Json → MemberAction (List Message)
submit_action client id update s =
    need (is_at s.phase cohort_ready) invalid_phase
      (λ s. (
        ok (create_submit_update_message client.did s.service_did id update ∷ []),
        record s { submitted_update = some update; included = some true; phase = update_submitted },
      ))
      s

pub submit_update :
    Client → String → Json → Participant → Result ParticipantError (List Message) × Participant
submit_update client id update participant =
    run_user id (submit_action client id update) participant

unfoldable pub decline_action : Client → String → MemberAction (List Message)
decline_action client id s =
    need (is_at s.phase cohort_ready) invalid_phase
      (λ s. (
        ok (create_submit_non_included_message client.did s.service_did id ∷ []),
        record s { included = some false; phase = non_included },
      ))
      s

pub decline_update :
    Client → String → Participant → Result ParticipantError (List Message) × Participant
decline_update client id participant = run_user id (decline_action client id) participant

-- `approveValidation` and `rejectValidation`
unfoldable pub ack_action : Client → String → Bool → MemberAction (List Message)
ack_action client id approved s =
    need (is_at s.phase awaiting_validation) invalid_phase
      (λ s. (
        ok (create_validation_ack_message client.did s.service_did id approved ∷ []),
        record s { phase = if approved then validation_sent else failed },
      ))
      s

pub approve_validation :
    Client → String → Participant → Result ParticipantError (List Message) × Participant
approve_validation client id participant = run_user id (ack_action client id true) participant

pub reject_validation :
    Client → String → Participant → Result ParticipantError (List Message) × Participant
reject_validation client id participant = run_user id (ack_action client id false) participant
