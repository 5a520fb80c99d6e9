-- ===== src/Aggregation/Service/Collection/Intruders.antt =====
-- Responses of a DID that has opted in but is not a member of the cohort.
use did_btcr2_js.Prelude.{[], ap, ◌++◌, ◌∙◌, false, nat_eq, refl, some, string_eq, true, ◌∷◌, ◌≡◌}
use did_btcr2_js.Aggregation.Service.Collection.{IsVerified, or_false}
use did_btcr2_js.Aggregation.Cohort.Answers.{has_responded}
use did_btcr2_js.Prelude.Result.{err, ok}
use did_btcr2_js.Aggregation.Messages.{Message, is_foreign, submit_nonincluded, truthy}
use did_btcr2_js.Aggregation.Service.Handlers.{
  accept_update, check_update, handle_submit_non_inclusion, handle_submit_update, is_collecting,
  or_reject, reject, with_update,
}
use did_btcr2_js.Aggregation.Service.{
  CohortState, Host, Service, cohort_error, run_found, update_malformed,
}
use did_btcr2_js.Prelude.Step.{call, when}
use did_btcr2_js.Aggregation.Service.Receive.{handle, receive, receive_action, receive_named}
use did_btcr2_js.Prelude.Dict.{get, has, includes, set}
use did_btcr2_js.Aggregation.Cohort.{add_update, unknown_participant}
use did_btcr2_js.Common.Json.{Json}
use Prim.Native.String.{String}

-- A message for the cohort that is not from one of its members.
pub record IsIntrusion (id : String) (s : CohortState) (m : Message) : Type 0 where
  pub speaks : is_foreign m ≡ false
  pub names : truthy m.body.cohort_id ≡ some id
  pub outside : includes m.from s.cohort.participants ≡ false
  pub silent : has_responded m.from s.cohort ≡ false

module _ (host : Host) (id : String) (x : Service) (s : CohortState) where
  receive-action :
      (m : Message)
      → truthy m.body.cohort_id ≡ some id
      → get id x ≡ some s
      → receive host m x ≡ ((receive_action host id m s).0, set id (receive_action host id m s).1 x)
  unfolding receive receive_named run_found
  receive-action m names at = rw (names, at) refl

  update_thrown :
      (m : Message) (u : Json)
      → is_collecting s.phase ≡ true
      → IsIntrusion id s m
      → IsVerified host s m u
      → receive_action host id m s ≡ (err (cohort_error unknown_participant), s)
  unfolding receive_action handle handle_submit_update check_update accept_update add_update when
      or_reject call with_update
  update_thrown m u open_ i v =
      let (absent, free) =
        or_false (has m.from s.cohort.pending_updates) (includes m.from s.cohort.non_included)
          i.silent in
      rw (i.speaks, v.submits, open_, v.carried, v.small, v.verified, free, absent, i.outside) refl

  decline_rejected :
      (m : Message)
      → is_collecting s.phase ≡ true
      → IsIntrusion id s m
      → m.kind ≡ submit_nonincluded
      → receive_action host id m s ≡ reject m.from update_malformed s
  unfolding receive_action handle handle_submit_non_inclusion when or_reject
  decline_rejected m open_ i declines = rw (i.speaks, declines, open_, i.outside) refl

  -- While a cohort collects responses, the update of a DID that opted in and was not accepted, with a
  -- proof that verifies, makes `receive` throw UNKNOWN_PARTICIPANT, where the decline of such a DID is
  -- recorded as a rejection; neither changes the cohort.
  pub receive-outsider :
      (m d : Message) (u : Json)
      → get id x ≡ some s
      → is_collecting s.phase ≡ true
      → IsIntrusion id s m
      → IsVerified host s m u
      → IsIntrusion id s d
      → d.kind ≡ submit_nonincluded
      → (receive host m x ≡ (err (cohort_error unknown_participant), set id s x))
        × (receive host d x ≡ (
          ok tt,
          set id
              (record s {
                rejections = s.rejections ++ record { from = d.from; code = update_malformed } ∷ [];
              })
              x,
        ))
  unfolding reject
  receive-outsider m d u at open_ im v idd declines = (
    receive-action m im.names at ∙ ap (λ r. (r.0, set id r.1 x)) (update_thrown m u open_ im v),
    receive-action d idd.names at
        ∙ ap (λ r. (r.0, set id r.1 x)) (decline_rejected d open_ idd declines),
  )
