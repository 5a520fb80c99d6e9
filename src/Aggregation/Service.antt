-- ===== src/Aggregation/Service.antt =====
-- packages/aggregation/src/service/service.ts: the state that `AggregationService` keeps for each
-- cohort, and the map of cohorts; packages/aggregation/src/core/phases.ts: the phases of a cohort.
pub mod Operator
pub mod Handlers
pub mod Fallback
pub mod Receive
pub mod Endings
pub mod Sound
pub mod Phases
pub mod Collection
pub mod Runs
pub mod Signing
use did_btcr2_js.Prelude.{[], Bool, List, Option, map, nat_beq, nat_eq, some, string_eq, ℕ, none}
use did_btcr2_js.Prelude.Dict.{Dict, delete, get, set}
use did_btcr2_js.Aggregation.Cohort.{Cohort, CohortError}
use did_btcr2_js.Aggregation.Session.{Musig, Session, SessionError}
use did_btcr2_js.Aggregation.FallbackSpend.{FallbackSignature, Spender}
use did_btcr2_js.Prelude.Result.{Result, err}
use did_btcr2_js.Aggregation.Strategy.{Canonical, Proofs, Strategy}
use did_btcr2_js.Common.Json.{Json}
use did_btcr2_js.Smt.Hash.{Bytes}
use Prim.Native.String.{String}
use did_btcr2_js.Aggregation.Conditions.{CohortConditions}
use did_btcr2_js.Prelude.Step.{Step}

pub data ServicePhase : Type 0 where
  created advertised cohort_set collecting_updates updates_collected data_distributed : ServicePhase
  validated signing_started nonces_collected awaiting_partial_sigs : ServicePhase
  fallback_requested complete failed : ServicePhase

-- The members of the enumeration, numbered.
unfoldable pub service_phase_number : ServicePhase → ℕ
service_phase_number created = 0
service_phase_number advertised = 1
service_phase_number cohort_set = 2
service_phase_number collecting_updates = 3
service_phase_number updates_collected = 4
service_phase_number data_distributed = 5
service_phase_number validated = 6
service_phase_number signing_started = 7
service_phase_number nonces_collected = 8
service_phase_number awaiting_partial_sigs = 9
service_phase_number fallback_requested = 10
service_phase_number complete = 11
service_phase_number failed = 12

-- `===` on phases
abbrev pub is_in : ServicePhase → ServicePhase → Bool
is_in p q = nat_beq (service_phase_number p) (service_phase_number q)

pub record CohortConfig : Type 0 where
  pub conditions : CohortConditions
  pub network : String

pub record PendingOptIn : Type 0 where
  pub cohort_id : String
  pub participant_did : String
  pub participant_pk : Bytes
  pub communication_pk : Bytes

pub data RejectionReason : Type 0 where
  wrong_version update_too_large update_verification_failed update_malformed : RejectionReason

-- The text for a human reader is left out.
pub record Rejection : Type 0 where
  pub from : String
  pub code : RejectionReason

pub data SpendPath : Type 0 where
  key_path script_path : SpendPath

pub record AggregationResult : Type 0 where
  pub cohort_id : String
  pub signature : Bytes
  pub signed_tx : Bytes
  pub path : SpendPath

-- `ServiceCohortState`. The cohort of the signing session is this very cohort: each call of the
-- session is given it anew. `smt_proofs` is the field of that name of the cohort.
pub record CohortState : Type 0 where
  pub phase : ServicePhase
  pub cohort : Cohort
  pub config : CohortConfig
  pub pending_opt_ins : Dict String PendingOptIn
  pub accepted_participants : List String
  pub signing_session : Option Session
  pub result : Option AggregationResult
  pub fallback_signatures : Option (Dict String FallbackSignature)
  pub rejections : List Rejection
  pub smt_proofs : Proofs

pub data ServiceError : Type 0 where
  invalid_cohort_conditions : List String → ServiceError
  cohort_not_found invalid_phase no_opt_in already_accepted cohort_full : ServiceError
  not_enough_participants too_many_participants unsupported_beacon_type : ServiceError
  missing_prev_out_script no_signing_session missing_prev_out type_error : ServiceError
  cohort_error : CohortError → ServiceError
  session_error : SessionError → ServiceError

abbrev pub Service : Type 0
Service = Dict String CohortState

abbrev pub Action : Type 0 → Type 0
Action = Step ServiceError CohortState

-- The service's own parameters, the modules of this development that it calls, and what it takes from
-- npm packages: hexToBytes, bytesToHex, `toString` of a number, the hexadecimal text of a transaction,
-- the key-path witness put on its input 0. `verify_proof method controller key update` is the proof
-- check of packages/cryptosuite with a key made by SchnorrMultikey (false where either throws).
pub record Host : Type 0 where
  pub did : String
  pub public_key : Bytes
  pub max_update_size_bytes : ℕ
  pub canonical : Canonical
  pub spender : Spender
  pub musig : Musig
  pub strategies : Dict String Strategy
  pub hex_to_bytes : String → Bytes
  pub bytes_to_hex : Bytes → String
  pub decimal : ℕ → String
  pub tx_hex : Bytes → String
  pub with_key_path_witness : Bytes → Bytes → Bytes
  pub verify_proof : String → String → Bytes → Json → Bool

-- `#cohortStates.get(cohortId)`, and the method's work on the state that is found.
unfoldable pub run_found :
    {A : Type 0}
    → String
    → Action A
    → Result ServiceError A
    → Service
    → Option CohortState
    → Result ServiceError A × Service
run_found id action missing service none = (missing, service)
run_found id action missing service (some s) = let (r, s') = action s in (r, set id s' service)

-- A method that throws where the cohort is not there.
unfoldable pub run_at : {A : Type 0} → String → Action A → Service → Result ServiceError A × Service
run_at id action service = run_found id action (err cohort_not_found) service (get id service)

abbrev pub session_of : CohortState → Session → Session
session_of s session = record session { cohort = s.cohort }

abbrev pub get_result : String → Service → Option AggregationResult
get_result id service = elim (get id service) [ none ↦ none | some s ↦ s.result ]

abbrev pub get_cohort_phase : String → Service → Option ServicePhase
get_cohort_phase id service = elim (get id service) [ none ↦ none | some s ↦ some s.phase ]

abbrev pub get_cohort : String → Service → Option Cohort
get_cohort id service = elim (get id service) [ none ↦ none | some s ↦ some s.cohort ]

abbrev pub collected_updates : String → Service → Dict String Json
collected_updates id service = elim (get id service) [
  | none ↦ []
  | some s ↦ s.cohort.pending_updates
]

abbrev pub get_signing_session_id : String → Service → Option String
get_signing_session_id id service = elim (get id service) [
  | none ↦ none
  | some s ↦ elim s.signing_session [ none ↦ none | some session ↦ some session.id ]
]

abbrev pub cohorts : Service → List Cohort
cohorts service = map (λ x. x.1.cohort) service

unfoldable pub remove_cohort : String → Service → Service
remove_cohort id service = delete id service
