-- ===== src/Aggregation/Participant/Actions/Signing.antt =====
-- packages/aggregation/src/participant/participant.ts: the user's methods of the signing round, and the
-- check that the transaction holds the validated signal.
use did_btcr2_js.Prelude.{
  Bool, List, Option, [], false, length, nat_beq, nat_eq, not, some, string_eq, ℕ, ◌&&◌, ◌==◌, ◌||◌,
  ◌∷◌, none,
}
use did_btcr2_js.Aggregation.Participant.{
  Client, MemberAction, MemberState, Participant, ParticipantError, SigningRequest,
  awaiting_fallback_sig, awaiting_partial_sig, awaiting_signing, cohort_error, complete,
  invalid_phase, is_at, missing_state, nonce_sent, parse_error, run_user, session_error,
  signal_mismatch,
}
use did_btcr2_js.Aggregation.Messages.{
  Message, create_fallback_signature_message, create_nonce_contribution_message,
  create_signature_authorization_message, truthy,
}
use did_btcr2_js.Aggregation.Recovery.{ScriptItem, build_fallback_leaf, bytes, opcode, x_only}
use did_btcr2_js.Aggregation.Session.{
  Session, SessionError, generate_nonce_contribution, generate_partial_signature, new_session,
}
use did_btcr2_js.Aggregation.FallbackSpend.{fallback_sighash}
use did_btcr2_js.Prelude.Step.{call, need, need_some}
use did_btcr2_js.Aggregation.Cohort.{Cohort, same_bytes}
use did_btcr2_js.Smt.Hash.{Bytes}
use Prim.Native.String.{String}
use did_btcr2_js.Prelude.Result.{Result, err, ok}
use did_btcr2_js.Aggregation.Cohort.Address.{effective_fallback_threshold}

-- An output script `RETURN payload` with the payload that is expected.
unfoldable pub is_return_of : Bytes → List ScriptItem → Bool
is_return_of expected (opcode op ∷ bytes payload ∷ []) =
    op == "RETURN" && same_bytes payload expected
is_return_of expected _ = false

-- The loop over the outputs: one with no script, or with a script that does not decode, is passed over.
unfoldable pub embeds : Client → Bytes → List (Option Bytes) → Bool
embeds client expected [] = false
embeds client expected (none ∷ rest) = embeds client expected rest
embeds client expected (some script ∷ rest) =
    elim (client.decode_script script) [ none ↦ false | some items ↦ is_return_of expected items ]
    || embeds client expected rest

unfoldable pub embeds_expected : Client → Bytes → Option Bytes → Bool
embeds_expected client tx none = false
embeds_expected client tx (some expected) =
    not (nat_beq (length expected) 0) && embeds client expected (client.output_scripts tx)

unfoldable pub tx_embeds_signal : Client → Bytes → String → Bool
tx_embeds_signal client tx signal_hex = embeds_expected client tx (client.hex_to_bytes signal_hex)

-- `#assertTxAnchorsValidatedSignal`, before what follows it.
unfoldable pub signal_of : MemberState → Option String
signal_of s = elim s.validation [ none ↦ none | some v ↦ truthy (some v.signal_bytes_hex) ]

unfoldable pub anchored : Client → Bytes → MemberAction (List Message) → MemberAction (List Message)
anchored client tx step s =
    need_some (signal_of s) missing_state
      (λ signal_hex. need (tx_embeds_signal client tx signal_hex) signal_mismatch step) s

-- `Transaction.fromRaw(hexToBytes(hex))`
unfoldable pub read_transaction : Client → String → Option Bytes
read_transaction client hex = elim (client.hex_to_bytes hex) [
  | none ↦ none
  | some raw ↦ client.parse_transaction raw
]

unfoldable pub store_nonce_sent : Client → String → Session × Bytes → MemberAction (List Message)
store_nonce_sent client id (session, nonce) s = (
  ok (create_nonce_contribution_message client.did s.service_did id session.id nonce ∷ []),
  record s { signing_session = some session; phase = nonce_sent },
)

-- The session is stored before the nonce is made.
unfoldable pub open_signing :
    Client → String → SigningRequest → Cohort → Bytes → Bytes → ℕ → MemberAction (List Message)
open_signing client id request k tx script value s =
    call session_error
      (generate_nonce_contribution client.musig
        (new_session request.session_id k tx (script ∷ []) (value ∷ [])) client.public_key
        client.secret_key)
      (store_nonce_sent client id)
      (record s {
        signing_session = some (new_session request.session_id k tx (script ∷ []) (value ∷ []));
      })

unfoldable pub approve_nonce_action : Client → String → MemberAction (List Message)
approve_nonce_action client id s =
    need (is_at s.phase awaiting_signing) invalid_phase
      (need_some s.signing_request missing_state (λ request. need_some s.cohort missing_state (λ k.
        need_some (read_transaction client request.pending_tx_hex) parse_error (λ tx.
          anchored client tx (
            need_some (client.hex_to_bytes request.prev_out_script_hex) parse_error (λ script.
              need_some (client.parse_big_int request.prev_out_value) parse_error
                (open_signing client id request k tx script)))))))
      s

pub approve_nonce :
    Client → String → Participant → Result ParticipantError (List Message) × Participant
approve_nonce client id participant = run_user id (approve_nonce_action client id) participant

-- The session is kept as `generatePartialSignature` leaves it, also where that throws.
unfoldable pub store_partial :
    Client → String → Session × Result SessionError Bytes → MemberAction (List Message)
store_partial client id (session, err e) s =
    (err (session_error e), record s { signing_session = some session })
store_partial client id (session, ok partial_sig) s = (
  ok (
      create_signature_authorization_message client.did s.service_did id session.id partial_sig
      ∷ []),
  record s { signing_session = some session; phase = complete },
)

unfoldable pub partial_action : Client → String → MemberAction (List Message)
partial_action client id s =
    need (is_at s.phase awaiting_partial_sig) invalid_phase
      (need_some s.signing_session missing_state (λ session.
        store_partial client id
          (generate_partial_signature client.musig session client.secret_key)))
      s

pub generate_member_signature :
    Client → String → Participant → Result ParticipantError (List Message) × Participant
generate_member_signature client id participant = run_user id (partial_action client id) participant

unfoldable pub sign_fallback :
    Client → String → SigningRequest → Bytes → Bytes → ℕ → Bytes → MemberAction (List Message)
sign_fallback client id request tx script value leaf s = (
  ok (
      create_fallback_signature_message client.did s.service_did id request.session_id
        (x_only client.public_key)
        (client.schnorr_sign (fallback_sighash client.spender tx 0 script value leaf)
          client.secret_key)
      ∷ []),
  record s { phase = complete },
)

unfoldable pub approve_fallback_action : Client → String → MemberAction (List Message)
approve_fallback_action client id s =
    need (is_at s.phase awaiting_fallback_sig) invalid_phase
      (need_some s.fallback_request missing_state (λ r. need_some s.cohort missing_state (λ k.
        need_some (read_transaction client r.request.pending_tx_hex) parse_error (λ tx.
          need_some (client.hex_to_bytes r.request.prev_out_script_hex) parse_error (λ script.
            need_some (client.parse_big_int r.request.prev_out_value) parse_error (λ value.
              anchored client tx (
                call cohort_error
                  (build_fallback_leaf client.spender.taproot k.cohort_keys
                    (effective_fallback_threshold k))
                  (sign_fallback client id r.request tx script value))))))))
      s

pub approve_fallback :
    Client → String → Participant → Result ParticipantError (List Message) × Participant
approve_fallback client id participant = run_user id (approve_fallback_action client id) participant
