-- ===== src/Aggregation/Service/Handlers.antt =====
-- packages/aggregation/src/service/service.ts: the handlers of incoming messages.
use did_btcr2_js.Prelude.{
  Bool, Option, [], false, from_option, if◌then◌else◌, leb, length, nat_beq, nat_eq, not, some,
  string_eq, true, ◌&&◌, ◌++◌, ◌==◌, ◌||◌, ◌∷◌, none,
}
use did_btcr2_js.Prelude.Result.{Result, err, ok}
use did_btcr2_js.Aggregation.Service.{
  Action, CohortState, Host, RejectionReason, ServiceError, ServicePhase, advertised,
  awaiting_partial_sigs, cohort_error, cohort_set, collecting_updates, complete, data_distributed,
  failed, is_in, key_path, nonces_collected, session_error, session_of, signing_started, type_error,
  update_malformed, update_too_large, update_verification_failed, updates_collected, validated,
}
use did_btcr2_js.Prelude.Dict.{get, has, includes, set}
use did_btcr2_js.Common.Json.{Json, as_text, get_field, is_true, null}
use did_btcr2_js.Aggregation.Cohort.{
  Cohort, add_non_inclusion, add_update, add_validation, has_all_responses,
  has_all_validation_responses, is_fully_validated,
}
use did_btcr2_js.Smt.Hash.{Bytes}
use did_btcr2_js.Aggregation.Session.{
  Session, add_nonce_contribution, add_partial_signature, generate_final_signature,
}
use Prim.Native.String.{String}
use did_btcr2_js.Prelude.Step.{call, when, when_some}
use did_btcr2_js.Aggregation.Messages.{Message}
use did_btcr2_js.Common.Text.{first_part}

-- A message that is dropped, and the drop recorded.
unfoldable pub reject : String → RejectionReason → Action (Unit {0})
reject from code s =
    (ok tt, record s { rejections = rejections ++ record { from = from; code = code } ∷ [] })
  where
    open s use {rejections}

unfoldable pub or_reject : Bool → String → RejectionReason → Action (Unit {0}) → Action (Unit {0})
or_reject true from code step s = step s
or_reject false from code step s = reject from code s

unfoldable pub store_opt_in : String → String → Bytes → Bytes → Action (Unit {0})
store_opt_in id did participant_pk communication_pk s = (
  ok tt,
  record s {
    pending_opt_ins =
        set did
          (record {
            cohort_id = id;
            participant_did = did;
            participant_pk = participant_pk;
            communication_pk = communication_pk;
          })
          opt_ins;
  },
)
  where
    open s use {pending_opt_ins as opt_ins}

unfoldable pub handle_opt_in : String → Message → Action (Unit {0})
handle_opt_in id m s =
    when (is_in s.phase advertised)
      (when_some m.body.participant_pk (λ participant_pk.
        when_some m.body.communication_pk (λ communication_pk.
          when (not (includes m.from s.accepted_participants))
            (store_opt_in id m.from participant_pk communication_pk))))
      s

-- The verification method names the sender, whose opt-in holds the key.
unfoldable pub verify_with : Host → CohortState → String → Json → String → Bool
verify_with host s sender update method =
    first_part b'#' method == sender && elim (get sender s.pending_opt_ins) [
      | none ↦ false
      | some opt_in ↦ host.verify_proof method sender opt_in.participant_pk update
    ]

-- `split` on a verification method that is no text throws.
unfoldable pub verify_method :
    Host → CohortState → String → Json → Option String → Result ServiceError Bool
verify_method host s sender update none = err type_error
verify_method host s sender update (some method) = ok (verify_with host s sender update method)

unfoldable pub verify_submitted_update :
    Host → CohortState → String → Json → Result ServiceError Bool
verify_submitted_update host s sender update =
    let proof = from_option null (get_field "proof" update) in
    if is_true (get_field "verificationMethod" proof) && is_true (get_field "proofValue" proof)
    then verify_method host s sender update (as_text (get_field "verificationMethod" proof))
    else ok false

abbrev pub is_collecting : ServicePhase → Bool
is_collecting p = is_in p cohort_set || is_in p collecting_updates

-- The phase after a response has been stored in the cohort k.
unfoldable pub phase_after_response : ServicePhase → Cohort → ServicePhase
phase_after_response p k =
    if has_all_responses k
    then updates_collected
    else if is_in p cohort_set
    then collecting_updates
    else p

unfoldable pub store_response : Cohort → Action (Unit {0})
store_response k s = (ok tt, record s { cohort = k; phase = phase_after_response s.phase k })

-- The service's checks of a verified update, and `addUpdate`.
unfoldable pub accept_update : String → Json → Action (Unit {0})
accept_update did update s =
    or_reject (not (includes did s.cohort.non_included)) did update_malformed
      (or_reject (not (has did s.cohort.pending_updates)) did update_malformed
        (call cohort_error (add_update s.cohort did update) store_response))
      s

unfoldable pub check_update : Host → String → Json → Action (Unit {0})
check_update host did update s =
    or_reject (leb (host.canonical.canonical_length update) host.max_update_size_bytes) did
      update_too_large
      (call (λ e. e) (verify_submitted_update host s did update)
        (λ verified. or_reject verified did update_verification_failed (accept_update did update)))
      s

-- A value that is there and truthy.
abbrev pub truthy_json : Option Json → Option Json
truthy_json value = if is_true value then value else none

unfoldable pub with_update : String → (Json → Action (Unit {0})) → Option Json → Action (Unit {0})
with_update from step none = reject from update_malformed
with_update from step (some update) = step update

unfoldable pub handle_submit_update : Host → Message → Action (Unit {0})
handle_submit_update host m s =
    when (is_collecting s.phase)
      (with_update m.from (check_update host m.from) (truthy_json m.body.signed_update)) s

unfoldable pub handle_submit_non_inclusion : Message → Action (Unit {0})
handle_submit_non_inclusion m s =
    when (is_collecting s.phase)
      (or_reject (includes m.from s.cohort.participants) m.from update_malformed (
        or_reject
          (not (has m.from s.cohort.pending_updates || includes m.from s.cohort.non_included))
          m.from update_malformed
          (call cohort_error (add_non_inclusion s.cohort m.from) store_response)))
      s

unfoldable pub phase_after_validation : ServicePhase → Cohort → ServicePhase
phase_after_validation p k =
    if is_fully_validated k then validated else if has_all_validation_responses k then failed else p

unfoldable pub store_validation : Cohort → Action (Unit {0})
store_validation k s = (ok tt, record s { cohort = k; phase = phase_after_validation s.phase k })

unfoldable pub handle_validation_ack : Message → Action (Unit {0})
handle_validation_ack m s =
    when (is_in s.phase data_distributed)
      (when_some m.body.approved
        (λ approved. call cohort_error (add_validation s.cohort m.from approved) store_validation))
      s

-- `sessionId !== state.signingSession.id`
abbrev pub is_session : Session → Option String → Bool
is_session session id = elim id [ none ↦ false | some text ↦ text == session.id ]

unfoldable pub store_session_nonce : Session → Action (Unit {0})
store_session_nonce session s = (
  ok tt,
  record s {
    signing_session = some session;
    phase =
        if nat_beq (length session.nonce_contributions) (length cohort.participants)
        then nonces_collected
        else phase;
  },
)
  where
    open s use {cohort, phase}

unfoldable pub handle_nonce_contribution : Message → Action (Unit {0})
handle_nonce_contribution m s =
    when_some s.signing_session
      (λ session. when (is_in s.phase signing_started) (
        when (is_session session m.body.session_id) (
          when_some m.body.nonce_contribution (λ nonce.
            call session_error (add_nonce_contribution (session_of s session) m.from nonce)
              store_session_nonce))))
      s

-- The witness goes into the transaction of the session, which is also the result's.
unfoldable pub store_signature : Host → String → Session × Bytes → Action (Unit {0})
store_signature host id (session, signature) s = (
  ok tt,
  record s {
    signing_session = some (record session { pending_tx = signed });
    result =
        some
          (record { cohort_id = id; signature = signature; signed_tx = signed; path = key_path });
    phase = complete;
  },
)
  where
    signed : Bytes
    signed = host.with_key_path_witness session.pending_tx signature

-- The session keeps the partial signature where the final one cannot be made.
unfoldable pub store_partial_signature : Host → String → Session → Action (Unit {0})
store_partial_signature host id session s =
    when (nat_beq (length session.partial_signatures) (length s.cohort.participants))
      (call session_error (generate_final_signature host.musig session) (store_signature host id))
      (record s { signing_session = some session })

unfoldable pub handle_signature_authorization : Host → String → Message → Action (Unit {0})
handle_signature_authorization host id m s =
    when_some s.signing_session
      (λ session. when (is_in s.phase awaiting_partial_sigs) (
        when (is_session session m.body.session_id) (
          when_some m.body.partial_signature (λ partial_sig.
            call session_error (add_partial_signature (session_of s session) m.from partial_sig)
              (store_partial_signature host id)))))
      s
