-- ===== src/Aggregation/Service/Signing.antt =====
-- packages/aggregation/src/service/service.ts: the operator's methods of the signing steps, and the
-- progress of the validation.
use did_btcr2_js.Prelude.{
  Bool, List, Option, [], filter, get_elem?, length, map, nat_eq, not, some, string_eq, ℕ, ◌&&◌,
  ◌||◌, ◌∷◌, none,
}
use did_btcr2_js.Prelude.Result.{Result, ok}
use did_btcr2_js.Aggregation.Service.{
  Action, Host, Service, ServiceError, ServicePhase, awaiting_partial_sigs, cohort_error,
  fallback_requested, invalid_phase, is_in, missing_prev_out, missing_prev_out_script,
  no_signing_session, nonces_collected, run_at, session_error, session_of, signing_started,
  validated,
}
use did_btcr2_js.Aggregation.Messages.{
  Message, create_aggregated_nonce_message, create_authorization_request_message,
  create_fallback_authorization_request_message,
}
use did_btcr2_js.Aggregation.Recovery.{build_fallback_leaf}
use did_btcr2_js.Prelude.Dict.{add, get, includes}
use did_btcr2_js.Aggregation.Cohort.{Cohort, CohortError}
use did_btcr2_js.Prelude.Step.{call, need, need_some}
use did_btcr2_js.Smt.Hash.{Bytes}
use did_btcr2_js.Aggregation.Session.{Session, generate_aggregated_nonce, new_session}
use Prim.Native.String.{String}
use did_btcr2_js.Aggregation.Cohort.Address.{effective_fallback_threshold}

pub record SigningTxData : Type 0 where
  pub tx : Bytes
  pub prev_out_scripts : List Bytes
  pub prev_out_values : List ℕ

pub record ValidationProgress : Type 0 where
  pub approved : List String
  pub rejected : List String
  pub pending : List String
  pub total : ℕ

-- `new Set(participants)` and the filter on it.
unfoldable pub to_set : List String → List String → List String
to_set [] seen = seen
to_set (x ∷ xs) seen = to_set xs (add x seen)

pub validation_progress : String → Service → ValidationProgress
validation_progress id service = elim (get id service) [
  | none ↦ record { approved = []; rejected = []; pending = []; total = 0 }
  | some s ↦
      let k = s.cohort in
      let all_participants = to_set k.participants [] in
      record {
        approved = k.validation_acks;
        rejected = k.validation_rejections;
        pending =
            filter
              (λ p. not (includes p k.validation_acks) && not (includes p k.validation_rejections))
              all_participants;
        total = length all_participants;
      }
]

unfoldable pub request_signature : Host → String → String → SigningTxData → Bytes → String → Message
request_signature host id session_id tx script did =
    create_authorization_request_message host.did did id session_id (host.tx_hex tx.tx)
      (host.bytes_to_hex script)
      (elim (get_elem? tx.prev_out_values 0) [ none ↦ "0" | some v ↦ host.decimal v ])

-- The session and the phase are stored before the script is looked for.
unfoldable pub begin_signing : Host → String → String → SigningTxData → Action (List Message)
begin_signing host id session_id tx s =
    need_some (get_elem? tx.prev_out_scripts 0) missing_prev_out_script
      (λ script started.
        (ok (map (request_signature host id session_id tx script) s.cohort.participants), started))
      (record s {
        signing_session =
            some (new_session session_id s.cohort tx.tx tx.prev_out_scripts tx.prev_out_values);
        phase = signing_started;
      })

unfoldable pub start_action : Host → String → String → SigningTxData → Action (List Message)
start_action host id session_id tx s =
    need (is_in s.phase validated) invalid_phase (begin_signing host id session_id tx) s

-- `session_id` is the random UUID of the new session.
unfoldable pub start_signing :
    Host → String → String → SigningTxData → Service → Result ServiceError (List Message) × Service
start_signing host id session_id tx service = run_at id (start_action host id session_id tx) service

unfoldable pub store_nonce_sum : Host → String → Session × Bytes → Action (List Message)
store_nonce_sum host id (session, nonce) s = (
  ok (
      map (λ did. create_aggregated_nonce_message host.did did id session.id nonce)
        s.cohort.participants),
  record s { signing_session = some session; phase = awaiting_partial_sigs },
)

unfoldable pub nonce_action : Host → String → Action (List Message)
nonce_action host id s =
    need (is_in s.phase nonces_collected) invalid_phase
      (need_some s.signing_session invalid_phase (λ session s.
        call session_error (generate_aggregated_nonce host.musig (session_of s session))
          (store_nonce_sum host id) s))
      s

unfoldable pub send_aggregated_nonce :
    Host → String → Service → Result ServiceError (List Message) × Service
send_aggregated_nonce host id service = run_at id (nonce_action host id) service

abbrev pub is_signing : ServicePhase → Bool
is_signing p = is_in p signing_started || is_in p nonces_collected || is_in p awaiting_partial_sigs

-- The first spent output: its script and its value.
unfoldable pub first_prev_out : Session → Option (Bytes × ℕ)
first_prev_out session = elim (get_elem? session.prev_out_scripts 0) [
  | none ↦ none
  | some script ↦ elim (get_elem? session.prev_out_values 0) [
    | none ↦ none
    | some value ↦ some (script, value)
  ]
]

unfoldable pub request_fallback :
    Host → String → Session → Bytes × ℕ → Bytes → Action (List Message)
request_fallback host id session (script, value) leaf s = (
  ok (
      map
        (λ did.
          create_fallback_authorization_request_message host.did did id session.id
            (host.tx_hex session.pending_tx) (host.bytes_to_hex script) (host.decimal value)
            (host.bytes_to_hex leaf))
        s.cohort.participants),
  record s { fallback_signatures = some []; phase = fallback_requested },
)

unfoldable pub fallback_leaf_of : Host → Cohort → Result CohortError Bytes
fallback_leaf_of host k =
    build_fallback_leaf host.spender.taproot k.cohort_keys (effective_fallback_threshold k)

unfoldable pub fallback_action : Host → String → Action (List Message)
fallback_action host id s =
    need_some s.signing_session no_signing_session
      (λ session. need (is_signing s.phase) invalid_phase (
        need_some (first_prev_out session) missing_prev_out (λ prev_out.
          call cohort_error (fallback_leaf_of host s.cohort)
            (request_fallback host id session prev_out))))
      s

unfoldable pub start_fallback_signing :
    Host → String → Service → Result ServiceError (List Message) × Service
start_fallback_signing host id service = run_at id (fallback_action host id) service
