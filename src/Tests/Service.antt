-- ===== src/Tests/Service.antt =====
-- The aggregation service at work on one cohort.
use did_btcr2_js.Aggregation.Service.Sound.{IsSound}
use did_btcr2_js.Prelude.{none, [], nat_eq, refl, some, string_eq, ◌∷◌, ◌≡◌}
use did_btcr2_js.Tests.ToyHost.{host, config}
use did_btcr2_js.Aggregation.Service.Operator.{
  accept_action, advertise_action, start_advert, store_participant, accept_participant, advertise,
  new_cohort, create_checked, create_cohort, new_state,
}
use did_btcr2_js.Aggregation.Service.Runs.Results.{reach-IsSound, After, Follows, step-Follows}
use did_btcr2_js.Aggregation.Service.Runs.{
  received, Reach, here, next, opened, Operation, ServiceStep, operate, operated,
}
use did_btcr2_js.Prelude.Dict.{add, set, get}
use did_btcr2_js.Aggregation.Service.{
  service_phase_number, PendingOptIn, advertised, run_at, run_found, CohortState, Service,
}
use did_btcr2_js.Tests.Conditions.{problems_test}
use did_btcr2_js.Aggregation.Service.Receive.{handle, receive, receive_action, receive_named}
use did_btcr2_js.Aggregation.Messages.{Message, create_cohort_opt_in_message}
use did_btcr2_js.Aggregation.Service.Handlers.{store_opt_in, handle_opt_in}
use did_btcr2_js.Common.Number.{at_least}
use did_btcr2_js.Prelude.Step.{need, need_some, when, when_some}

abbrev opened_state : CohortState
opened_state = new_state host "c" config

abbrev opened_service : Service
opened_service = ("c", opened_state) ∷ []

opened_test : opened_service ≡ (create_cohort host "c" config []).1
unfolding create_cohort create_checked set
opened_test = rw problems_test refl

abbrev advertising :
    ServiceStep host opened_service (operate host (Operation.advertising "c") opened_service)
advertising = operated (Operation.advertising "c") refl

at_test : get "c" opened_service ≡ some opened_state
unfolding get
at_test = refl

step-Follows_example :
    After Follows "c" opened_state (operate host (Operation.advertising "c") opened_service)
step-Follows_example =
    step-Follows host opened_service (operate host (Operation.advertising "c") opened_service)
      advertising "c" opened_state at_test

abbrev opened_reach : Reach host opened_service
opened_reach = next here (opened "c" config (unfold get in refl) opened_test)

abbrev opt_in : Message
opt_in = create_cohort_opt_in_message "did:a" "did:s" "c" (1 ∷ []) (1 ∷ []) none

abbrev joining : PendingOptIn
joining = record {
  cohort_id = "c";
  participant_did = "did:a";
  participant_pk = 1 ∷ [];
  communication_pk = 1 ∷ [];
}

abbrev joined_state : CohortState
joined_state = record opened_state {
  phase = advertised;
  pending_opt_ins = ("did:a", joining) ∷ [];
  accepted_participants = "did:a" ∷ [];
  cohort = record (new_cohort host "c" config) {
    participants = "did:a" ∷ [];
    participant_keys = ("did:a", 1 ∷ []) ∷ [];
    cohort_keys = (1 ∷ []) ∷ [];
  };
}

-- The cohort is advertised, a DID opts in, and the operator accepts it.
abbrev joined_service : Service
joined_service =
    operate host (Operation.accepting "c" "did:a")
      (receive host opt_in (operate host (Operation.advertising "c") opened_service)).1

joined_test : get "c" joined_service ≡ some joined_state
unfolding operate receive receive_named receive_action run_found run_at get set advertise
    accept_participant create_cohort_opt_in_message handle_opt_in handle accept_action need_some
    when service_phase_number advertise_action need new_state start_advert when_some store_opt_in
    at_least store_participant new_cohort add
joined_test = refl

joined_reach : Reach host joined_service
joined_reach =
    next
      (next (next opened_reach (operated (Operation.advertising "c") refl)) (received opt_in refl))
      (operated (Operation.accepting "c" "did:a") refl)

reach-IsSound_example : IsSound host joined_state
reach-IsSound_example =
    reach-IsSound host refl joined_service joined_reach "c" joined_state joined_test
