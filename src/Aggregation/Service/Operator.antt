-- ===== src/Aggregation/Service/Operator.antt =====
-- packages/aggregation/src/service/service.ts: the methods that the operator of the service calls.
use did_btcr2_js.Prelude.{
  Bool, List, Option, [], false, filter, from_option, if◌then◌else◌, length, map, nat_eq, not, some,
  string_eq, ℕ, ◌++◌, ◌==◌, ◌∷◌, none,
}
use did_btcr2_js.Common.Number.{Number, above, at_least, below}
use did_btcr2_js.Aggregation.Service.{
  Action, CohortConfig, CohortState, Host, PendingOptIn, Rejection, Service, ServiceError,
  advertised, already_accepted, cohort_error, cohort_full, cohort_set, created, data_distributed,
  invalid_cohort_conditions, invalid_phase, is_in, no_opt_in, not_enough_participants, run_at,
  too_many_participants, unsupported_beacon_type, updates_collected,
}
use did_btcr2_js.Prelude.Result.{Result, err, ok}
use did_btcr2_js.Prelude.Dict.{Dict, add, get, includes, set}
use did_btcr2_js.Aggregation.Cohort.{Cohort, CohortError}
use did_btcr2_js.Prelude.Step.{call, need, need_some}
use did_btcr2_js.Aggregation.Messages.{
  Message, create_cohort_advert_message, create_cohort_opt_in_accept_message,
  create_cohort_ready_message, create_distribute_aggregated_data_message,
}
use did_btcr2_js.Aggregation.Strategy.{Proofs, Strategy, get_beacon_strategy}
use Prim.Native.String.{String}
use did_btcr2_js.Aggregation.Conditions.{validate_cohort_conditions}
use did_btcr2_js.Aggregation.Cohort.Address.{compute_beacon_address}
use did_btcr2_js.Aggregation.Inbox.{size}

-- `drainRejections`
unfoldable pub drain_found : String → Service → Option CohortState → List Rejection × Service
drain_found id service none = ([], service)
drain_found id service (some s) = (s.rejections, set id (record s { rejections = [] }) service)

unfoldable pub drain_rejections : String → Service → List Rejection × Service
drain_rejections id service = drain_found id service (get id service)

-- `new AggregationCohort(...)` as `createCohort` calls it; `config.recoveryKey` is hexadecimal.
unfoldable pub new_cohort : Host → String → CohortConfig → Cohort
new_cohort host id config = record {
  id = id;
  service_did = host.did;
  min_participants = c.min_participants;
  network = config.network;
  beacon_type = if c.beacon_type == "" then "CASBeacon" else c.beacon_type;
  participants = [];
  participant_keys = [];
  cohort_keys = [];
  tap_tweak = [];
  internal_key = [];
  tap_merkle_root = [];
  recovery_key = some (host.hex_to_bytes c.recovery_key);
  recovery_sequence = some c.recovery_sequence;
  funding_model = from_option "operator-funded" c.funding_model;
  fallback_threshold = c.fallback_threshold;
  beacon_address = "";
  pending_updates = [];
  non_included = [];
  cas_announcement = none;
  signal_bytes = none;
  validation_acks = [];
  validation_rejections = [];
}
  where
    open config use {conditions as c}

unfoldable pub new_state : Host → String → CohortConfig → CohortState
new_state host id config = record {
  phase = created;
  cohort = new_cohort host id config;
  config = config;
  pending_opt_ins = [];
  accepted_participants = [];
  signing_session = none;
  result = none;
  fallback_signatures = none;
  rejections = [];
  smt_proofs = [];
}

-- By the problems that the validation found.
unfoldable pub create_checked :
    Host → String → CohortConfig → Service → List String → Result ServiceError String × Service
create_checked host id config service [] = (ok id, set id (new_state host id config) service)
create_checked host id config service (p ∷ problems) =
    (err (invalid_cohort_conditions (p ∷ problems)), service)

-- `id` is the random UUID of the new cohort.
unfoldable pub create_cohort :
    Host → String → CohortConfig → Service → Result ServiceError String × Service
create_cohort host id config service =
    create_checked host id config service (validate_cohort_conditions config.conditions)

unfoldable pub start_advert : Host → String → Action (List Message)
start_advert host id s = (
  ok (
      create_cohort_advert_message host.did id config.network host.public_key config.conditions
      ∷ []),
  record s { phase = advertised },
)
  where
    open s use {config}

unfoldable pub advertise_action : Host → String → Action (List Message)
advertise_action host id s = need (is_in s.phase created) invalid_phase (start_advert host id) s

unfoldable pub advertise : Host → String → Service → Result ServiceError (List Message) × Service
advertise host id service = run_at id (advertise_action host id) service

-- The opt-ins of those that are not accepted yet.
pub pending_opt_ins_of : CohortState → Dict String PendingOptIn
pending_opt_ins_of s = filter (λ x. not (includes x.0 s.accepted_participants)) s.pending_opt_ins

abbrev pub is_full : Option Number → ℕ → Bool
is_full none size = false
is_full (some max) size = at_least size max

abbrev pub is_over : Option Number → ℕ → Bool
is_over none size = false
is_over (some max) size = below max size

unfoldable pub store_participant : Host → String → String → PendingOptIn → Action (List Message)
store_participant host id did opt_in s = (
  ok (create_cohort_opt_in_accept_message host.did did id ∷ []),
  record s {
    accepted_participants = add did accepted;
    cohort = record k {
      participants = members ++ did ∷ [];
      participant_keys = set did key keys;
      cohort_keys = host.spender.taproot.sort_keys (cohort_keys ++ key ∷ []);
    };
  },
)
  where
    open s use {accepted_participants as accepted, cohort as k}
    open k use {participants as members, participant_keys as keys, cohort_keys}
    open opt_in use {participant_pk as key}

unfoldable pub accept_action : Host → String → String → Action (List Message)
accept_action host id did s =
    need_some (get did s.pending_opt_ins) no_opt_in
      (λ opt_in. need (not (includes did s.accepted_participants)) already_accepted (
        need (not (is_full s.config.conditions.max_participants (length s.accepted_participants)))
          cohort_full (store_participant host id did opt_in)))
      s

unfoldable pub accept_participant :
    Host → String → String → Service → Result ServiceError (List Message) × Service
accept_participant host id did service = run_at id (accept_action host id did) service

-- The end of `finalizeKeygen`.
unfoldable pub store_keygen :
    Host → String → Result CohortError String × Cohort → Action (List Message)
store_keygen host id (err e, k) s = (err (cohort_error e), record s { cohort = k })
store_keygen host id (ok address, k) s = (
  ok (
      map (λ did. create_cohort_ready_message host.did did id address k.cohort_keys)
        k.participants),
  record s { phase = cohort_set; cohort = k },
)

unfoldable pub finalize_action : Host → String → Action (List Message)
finalize_action host id s =
    need (is_in s.phase advertised) invalid_phase
      (need (not (above s.config.conditions.min_participants (length s.accepted_participants)))
        not_enough_participants
        (need (not (is_over s.config.conditions.max_participants (length s.accepted_participants)))
          too_many_participants
          (store_keygen host id (compute_beacon_address host.spender.taproot s.cohort))))
      s

unfoldable pub finalize_keygen :
    Host → String → Service → Result ServiceError (List Message) × Service
finalize_keygen host id service = run_at id (finalize_action host id) service

-- The end of `buildAndDistribute`: `signalBytes` is set by each of the strategies.
unfoldable pub store_data : Host → String → Strategy → Cohort × Proofs → Action (List Message)
store_data host id strategy (k, proofs) s = (
  ok (
      map
        (λ did.
          let payload = strategy.get_distribute_payload k proofs did in
          create_distribute_aggregated_data_message host.did did id config.conditions.beacon_type
            (host.bytes_to_hex (from_option [] k.signal_bytes)) payload.cas_announcement
            payload.smt_proof)
        k.participants),
  record s { phase = data_distributed; cohort = k; smt_proofs = proofs },
)
  where
    open s use {config}

unfoldable pub distribute_action : Host → String → Action (List Message)
distribute_action host id s =
    need (is_in s.phase updates_collected) invalid_phase
      (need_some (get_beacon_strategy s.config.conditions.beacon_type host.strategies)
        unsupported_beacon_type
        (λ strategy.
          call cohort_error (strategy.build_aggregated_data s.cohort s.smt_proofs)
            (store_data host id strategy)))
      s

unfoldable pub build_and_distribute :
    Host → String → Service → Result ServiceError (List Message) × Service
build_and_distribute host id service = run_at id (distribute_action host id) service
