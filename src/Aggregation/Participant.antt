-- ===== src/Aggregation/Participant.antt =====
-- packages/aggregation/src/participant/participant.ts: the state that `AggregationParticipant` keeps
-- for each cohort; packages/aggregation/src/core/phases.ts: its phases.
pub mod Messages
pub mod Actions
pub mod Signal
pub mod Anchored
use did_btcr2_js.Prelude.{
  ◌==◌, Bool, List, Option, [], if◌then◌else◌, map, nat_beq, nat_eq, some, string_eq, ℕ, ◌∷◌, none,
}
use did_btcr2_js.Aggregation.FallbackSpend.{Spender}
use did_btcr2_js.Prelude.Result.{Result, err}
use Prim.Native.String.{String}
use did_btcr2_js.Aggregation.Strategy.{Canonical, Strategy}
use did_btcr2_js.Prelude.Dict.{Dict, get, set}
use did_btcr2_js.Aggregation.Session.{Musig, Session, SessionError, clear_secrets}
use did_btcr2_js.Prelude.Step.{Step}
use did_btcr2_js.Aggregation.Cohort.{Cohort, CohortError}
use did_btcr2_js.Smt.Hash.{Bytes, Error}
use did_btcr2_js.Smt.Proof.{SerializedSmtProof}
use did_btcr2_js.Common.Json.{Json}
use did_btcr2_js.Aggregation.Recovery.{ScriptItem}
use did_btcr2_js.Aggregation.Messages.Adverts.{Advert}

pub data ParticipantPhase : Type 0 where
  discovered opted_in cohort_ready update_submitted non_included : ParticipantPhase
  awaiting_validation validation_sent awaiting_signing nonce_sent : ParticipantPhase
  awaiting_partial_sig awaiting_fallback_sig complete failed : ParticipantPhase

-- The members of the enumeration, numbered.
unfoldable pub participant_phase_number : ParticipantPhase → ℕ
participant_phase_number discovered = 0
participant_phase_number opted_in = 1
participant_phase_number cohort_ready = 2
participant_phase_number update_submitted = 3
participant_phase_number non_included = 4
participant_phase_number awaiting_validation = 5
participant_phase_number validation_sent = 6
participant_phase_number awaiting_signing = 7
participant_phase_number nonce_sent = 8
participant_phase_number awaiting_partial_sig = 9
participant_phase_number awaiting_fallback_sig = 10
participant_phase_number complete = 11
participant_phase_number failed = 12

-- `===` on phases
abbrev pub is_at : ParticipantPhase → ParticipantPhase → Bool
is_at p q = nat_beq (participant_phase_number p) (participant_phase_number q)

pub record CohortAdvert : Type 0 where
  pub advert : Advert
  pub service_did : String

pub record PendingValidation : Type 0 where
  pub cohort_id : String
  pub beacon_type : String
  pub signal_bytes_hex : String
  pub cas_announcement : Option (Dict String String)
  pub smt_proof : Option (SerializedSmtProof String)
  pub expected_hash : String
  pub matches : Bool
  pub included : Bool

-- A `PendingSigningRequest`, and with the leaf a `PendingFallbackRequest`.
pub record SigningRequest : Type 0 where
  pub cohort_id : String
  pub session_id : String
  pub pending_tx_hex : String
  pub prev_out_script_hex : String
  pub prev_out_value : String

pub record FallbackRequest : Type 0 where
  pub request : SigningRequest
  pub fallback_leaf_script_hex : String

-- `ParticipantCohortState`. The cohort of the signing session is this very cohort.
pub record MemberState : Type 0 where
  pub phase : ParticipantPhase
  pub cohort_id : String
  pub service_did : String
  pub advert : Option CohortAdvert
  pub cohort : Option Cohort
  pub submitted_update : Option Json
  pub included : Option Bool
  pub validation : Option PendingValidation
  pub signing_request : Option SigningRequest
  pub fallback_request : Option FallbackRequest
  pub signing_session : Option Session

pub data ParticipantError : Type 0 where
  invalid_phase missing_state signal_mismatch parse_error : ParticipantError
  cohort_error : CohortError → ParticipantError
  session_error : SessionError → ParticipantError
  strategy_error : Error → ParticipantError

abbrev pub Participant : Type 0
Participant = Dict String MemberState

abbrev pub MemberAction : Type 0 → Type 0
MemberAction = Step ParticipantError MemberState

-- The participant's own parameters (the signer is its two keys), the modules of this development that
-- it calls, and what it takes from npm packages: hexToBytes, Transaction.fromRaw, Script.decode and
-- BigInt, each with `none` for a throw; bytesToHex; the scripts of the outputs of a transaction;
-- schnorr.sign of a message with a secret key.
pub record Client : Type 0 where
  pub did : String
  pub public_key : Bytes
  pub secret_key : Bytes
  pub genesis_document : Option Json
  pub canonical : Canonical
  pub spender : Spender
  pub musig : Musig
  pub strategies : Dict String Strategy
  pub hex_to_bytes : String → Option Bytes
  pub bytes_to_hex : Bytes → String
  pub parse_transaction : Bytes → Option Bytes
  pub output_scripts : Bytes → List (Option Bytes)
  pub decode_script : Bytes → Option (List ScriptItem)
  pub parse_big_int : String → Option ℕ
  pub schnorr_sign : Bytes → Bytes → Bytes

-- `#cohortStates.get(cohortId)`, and the method's work on the state that is found.
unfoldable pub run_member :
    {A : Type 0}
    → String
    → MemberAction A
    → Result ParticipantError A
    → Participant
    → Option MemberState
    → Result ParticipantError A × Participant
run_member id action missing participant none = (missing, participant)
run_member id action missing participant (some s) =
    let (r, s') = action s in (r, set id s' participant)

-- A method of the user: without the cohort, its phase is wrong too.
unfoldable pub run_user :
    {A : Type 0} → String → MemberAction A → Participant → Result ParticipantError A × Participant
run_user id action participant =
    run_member id action (err invalid_phase) participant (get id participant)

abbrev pub get_member_phase : String → Participant → Option ParticipantPhase
get_member_phase id participant = elim (get id participant) [ none ↦ none | some s ↦ some s.phase ]

abbrev pub get_validation : String → Participant → Option PendingValidation
get_validation id participant = elim (get id participant) [ none ↦ none | some s ↦ s.validation ]

-- What the states hold, for those that hold it.
abbrev pub collect : {A : Type 0} → (MemberState → Option A) → Participant → Dict String A
collect pick [] = []
collect pick ((id, s) ∷ rest) =
    let others = collect pick rest in elim (pick s) [ none ↦ others | some x ↦ (id, x) ∷ others ]

pub discovered_cohorts : Participant → Dict String CohortAdvert
discovered_cohorts = collect (λ s. if is_at s.phase discovered then s.advert else none)

-- `JoinedCohortInfo`
pub record JoinedCohort : Type 0 where
  pub joined_id : String
  pub joined_service : String
  pub joined_address : String
  pub joined_keys : List Bytes

-- The cohorts with a beacon address that is not empty.
abbrev pub joined_of : MemberState → Option JoinedCohort
joined_of s = elim s.cohort [
  | none ↦ none
  | some k ↦
      if k.beacon_address == ""
      then none
      else some (record {
        joined_id = s.cohort_id;
        joined_service = s.service_did;
        joined_address = k.beacon_address;
        joined_keys = k.cohort_keys;
      })
]

pub joined_cohorts : Participant → Dict String JoinedCohort
joined_cohorts = collect joined_of

pub pending_validations : Participant → Dict String PendingValidation
pending_validations =
    collect (λ s. if is_at s.phase awaiting_validation then s.validation else none)

pub pending_signing_requests : Participant → Dict String SigningRequest
pending_signing_requests =
    collect (λ s. if is_at s.phase awaiting_signing then s.signing_request else none)

pub pending_fallback_requests : Participant → Dict String FallbackRequest
pending_fallback_requests =
    collect (λ s. if is_at s.phase awaiting_fallback_sig then s.fallback_request else none)

-- `clearSecrets`, for every cohort.
abbrev pub clear_member : MemberState → MemberState
clear_member s = elim s.signing_session [
  | none ↦ s
  | some session ↦ record s { signing_session = some (clear_secrets session) }
]

pub clear_all_secrets : Participant → Participant
clear_all_secrets participant = map (λ x. (x.0, clear_member x.1)) participant
