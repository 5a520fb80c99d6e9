-- ===== src/Tests/Collection.antt =====
-- The members of a cohort answer, and one that is not a member.
use did_btcr2_js.Prelude.{
  All, ◌++◌, [], inl, inr, length, nat_eq, refl, some, string_eq, true, ◌∷◌, ◌≡◌,
}
use did_btcr2_js.Tests.ToyHost.{host, config}
use did_btcr2_js.Aggregation.Messages.{
  Message, create_submit_non_included_message, create_submit_update_message,
}
use Prim.Native.String.{String}
use did_btcr2_js.Aggregation.Service.{
  cohort_error, update_malformed, CohortState, PendingOptIn, Service, cohort_set,
  service_phase_number, updates_collected,
}
use did_btcr2_js.Aggregation.Service.Collection.{IsResponse, IsVerified, responses}
use did_btcr2_js.Aggregation.Service.Handlers.{
  is_collecting, verify_method, verify_submitted_update, verify_with,
}
use did_btcr2_js.Common.Json.{get_field, Json, end, field, obj, str}
use did_btcr2_js.Aggregation.Service.Collection.Complete.{deliver, deliver-UpdatesCollected}
use did_btcr2_js.Aggregation.Service.Operator.{new_cohort, new_state}
use did_btcr2_js.Prelude.Dict.{set, get}
use did_btcr2_js.Common.Text.{first_part}
use did_btcr2_js.Aggregation.Service.Receive.{receive}
use did_btcr2_js.Aggregation.Cohort.{unknown_participant}
use did_btcr2_js.Prelude.Result.{err, ok}
use did_btcr2_js.Aggregation.Service.Collection.Intruders.{IsIntrusion, receive-outsider}
use did_btcr2_js.Aggregation.Cohort.Answers.{IsAnswered, IsExclusive, has_responded}

abbrev opt_in_of : String → PendingOptIn
opt_in_of did = record {
  cohort_id = "c";
  participant_did = did;
  participant_pk = 1 ∷ [];
  communication_pk = 1 ∷ [];
}

-- Two members; a third DID has opted in too.
abbrev pub ready_state : CohortState
ready_state = record (new_state host "c" config) {
  phase = cohort_set;
  pending_opt_ins =
      ("did:a", opt_in_of "did:a")
      ∷ ("did:b", opt_in_of "did:b")
      ∷ ("did:z", opt_in_of "did:z")
      ∷ [];
  accepted_participants = "did:a" ∷ "did:b" ∷ [];
  cohort = record (new_cohort host "c" config) {
    participants = "did:a" ∷ "did:b" ∷ [];
    participant_keys = ("did:a", 1 ∷ []) ∷ ("did:b", 1 ∷ []) ∷ [];
    cohort_keys = (1 ∷ []) ∷ (1 ∷ []) ∷ [];
  };
}

abbrev pub ready_service : Service
ready_service = ("c", ready_state) ∷ []

-- An update whose proof names a key of its sender.
abbrev pub signed_update : String → Json
signed_update method = obj (
    field "proof" (obj (field "verificationMethod" (str method) (field "proofValue" (str "z") end)))
      end)

abbrev decline : Message
decline = create_submit_non_included_message "did:b" "did:s" "c"

abbrev update : Message
update = create_submit_update_message "did:a" "did:s" "c" (signed_update "did:a#key")

decline-IsResponse : IsResponse host "c" ready_state decline
unfolding create_submit_non_included_message
decline-IsResponse = record {
  speaks = refl;
  names = refl;
  member = unfold new_state in refl;
  answer = inl refl;
}

update-IsVerified : IsVerified host ready_state update (signed_update "did:a#key")
unfolding create_submit_update_message verify_submitted_update verify_method verify_with new_state
    get get_field first_part
update-IsVerified = record { submits = refl; carried = refl; small = refl; verified = refl }

update-IsResponse : IsResponse host "c" ready_state update
unfolding create_submit_update_message
update-IsResponse = record {
  speaks = refl;
  names = refl;
  member = unfold new_state in refl;
  answer = inr (signed_update "did:a#key", update-IsVerified);
}

open_test : is_collecting ready_state.phase ≡ true
unfolding service_phase_number
open_test = refl

ready-IsAnswered : IsAnswered ready_state.cohort
unfolding new_cohort
ready-IsAnswered = record {
  update_members = tt;
  declined_members = tt;
  ack_members = tt;
  rejection_members = tt;
  distinct = tt;
}

ready-IsExclusive : IsExclusive ready_state.cohort
unfolding new_cohort
ready-IsExclusive = record { declined_once = tt; exclusive = tt }

deliver-UpdatesCollected_example :
    (s' : CohortState) × (get "c" (deliver host (decline ∷ update ∷ []) ready_service) ≡ some s')
    × (s'.phase ≡ updates_collected)
    × (s'.cohort.participants ≡ ready_state.cohort.participants)
    × (responses s'.cohort ≡ length s'.cohort.participants)
    × All (λ d. has_responded d s'.cohort ≡ true) ready_state.cohort.participants
deliver-UpdatesCollected_example =
    deliver-UpdatesCollected host "c" decline (update ∷ []) ready_service ready_state
      (unfold get in refl) open_test ready-IsAnswered ready-IsExclusive
      (decline-IsResponse, (update-IsResponse, tt))
      (unfold new_cohort get in refl, (unfold new_cohort get in refl, tt))
      (
        (unfold create_submit_non_included_message create_submit_update_message in refl, tt),
        (tt, tt),
      )
      (unfold new_cohort in refl)

abbrev outside_update : Message
outside_update = create_submit_update_message "did:z" "did:s" "c" (signed_update "did:z#key")

abbrev outside_decline : Message
outside_decline = create_submit_non_included_message "did:z" "did:s" "c"

outside_update-IsIntrusion : IsIntrusion "c" ready_state outside_update
unfolding create_submit_update_message new_cohort new_state get
outside_update-IsIntrusion = record { speaks = refl; names = refl; outside = refl; silent = refl }

outside_decline-IsIntrusion : IsIntrusion "c" ready_state outside_decline
unfolding create_submit_non_included_message new_cohort new_state get
outside_decline-IsIntrusion = record { speaks = refl; names = refl; outside = refl; silent = refl }

outside_update-IsVerified : IsVerified host ready_state outside_update (signed_update "did:z#key")
unfolding create_submit_update_message verify_submitted_update verify_method verify_with new_state
    get get_field first_part
outside_update-IsVerified = record { submits = refl; carried = refl; small = refl; verified = refl }

receive-outsider_example :
    (receive host outside_update ready_service
      ≡ (err (cohort_error unknown_participant), set "c" ready_state ready_service))
    × (receive host outside_decline ready_service ≡ (
      ok tt,
      set "c"
          (record ready_state {
            rejections =
                ready_state.rejections ++ record { from = "did:z"; code = update_malformed } ∷ [];
          })
          ready_service,
    ))
unfolding create_submit_non_included_message
receive-outsider_example =
    receive-outsider host "c" ready_service ready_state outside_update outside_decline
      (signed_update "did:z#key") (unfold get in refl) open_test outside_update-IsIntrusion
      outside_update-IsVerified outside_decline-IsIntrusion refl
