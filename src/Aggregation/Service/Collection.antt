-- ===== src/Aggregation/Service/Collection.antt =====
-- The round in which the members of a cohort answer with an update or decline, in any order.
pub mod Intruders
pub mod Complete
pub mod Senders
use did_btcr2_js.Prelude.{
  inl, inr, subst, sym, Bool, arith, false, leb, length, nat_eq, refl, some, string_eq, suc, true,
  ℕ, ◌+◌, ◌==◌, ◌||◌, ◌≡◌, ◌⊎◌,
}
use did_btcr2_js.Aggregation.Service.Handlers.{
  accept_update, check_update, handle_submit_non_inclusion, handle_submit_update, is_collecting,
  or_reject, phase_after_response, store_response, truthy_json, verify_submitted_update,
  with_update,
}
use did_btcr2_js.Aggregation.Messages.{
  Message, is_foreign, submit_nonincluded, submit_update, truthy,
}
use did_btcr2_js.Prelude.Result.{ok}
use did_btcr2_js.Common.Json.{Json}
use did_btcr2_js.Aggregation.Cohort.{Cohort, add_non_inclusion, add_update}
use did_btcr2_js.Prelude.Dict.{add, get-set, has, includes, length-set, set}
use Prim.Native.String.{String}
use did_btcr2_js.Prelude.Step.{call, when}
use did_btcr2_js.Prelude.Sets.{includes-add, length-add}
use did_btcr2_js.Aggregation.Service.{CohortState, Host}
use did_btcr2_js.Aggregation.Service.Receive.{handle, receive_action}
use did_btcr2_js.Aggregation.Participant.{non_included}
use did_btcr2_js.Aggregation.Cohort.Answers.{has_responded}

abbrev pub responses : Cohort → ℕ
responses k = length k.pending_updates + length k.non_included

-- What k' is after a response of the member did.
pub record Responded (did : String) (k k' : Cohort) : Type 0 where
  pub members : k'.participants ≡ k.participants
  pub responded : (d : String) → has_responded d k' ≡ (has_responded d k || (did == d))
  pub counted : responses k' ≡ suc (responses k)

-- An update that the service verifies.
pub record IsVerified (host : Host) (s : CohortState) (m : Message) (u : Json) : Type 0 where
  pub submits : m.kind ≡ submit_update
  pub carried : truthy_json m.body.signed_update ≡ some u
  pub small : leb (host.canonical.canonical_length u) host.max_update_size_bytes ≡ true
  pub verified : verify_submitted_update host s m.from u ≡ ok true

-- A member's message with a verified update, or declining.
pub record IsResponse (host : Host) (id : String) (s : CohortState) (m : Message) : Type 0 where
  pub speaks : is_foreign m ≡ false
  pub names : truthy m.body.cohort_id ≡ some id
  pub member : includes m.from s.cohort.participants ≡ true
  pub answer : (m.kind ≡ submit_nonincluded) ⊎ ((u : Json) × IsVerified host s m u)

or_false : (a b : Bool) → (a || b) ≡ false → (a ≡ false) × (b ≡ false)
or_false true b h = cc
or_false false b h = (refl, h)

updated :
    (did : String) (u : Json) (k : Cohort)
    → has_responded did k ≡ false
    → Responded did k (record k { pending_updates = set did u k.pending_updates })
updated did u k fresh =
    let (absent, free) = or_false (has did k.pending_updates) (includes did k.non_included) fresh in
    record {
      members = refl;
      responded = λ d. ground (arith, get-set did d u k.pending_updates);
      counted = ground (arith, length-set did u k.pending_updates, absent);
    }

declined :
    (did : String) (k : Cohort)
    → has_responded did k ≡ false
    → Responded did k (record k { non_included = add did k.non_included })
declined did k fresh =
    let (absent, free) = or_false (has did k.pending_updates) (includes did k.non_included) fresh in
    record {
      members = refl;
      responded = λ d. ground (arith, includes-add did d k.non_included);
      counted = ground (arith, length-add did k.non_included, free);
    }

abbrev pub responded_state : CohortState → Cohort → CohortState
responded_state s k = record s { cohort = k; phase = phase_after_response s.phase k }

module _ (host : Host) (id : String) (m : Message) (s : CohortState) where
  decline_lem :
      is_collecting s.phase ≡ true
      → includes m.from s.cohort.participants ≡ true
      → has_responded m.from s.cohort ≡ false
      → (handle_submit_non_inclusion m s).1
        ≡ responded_state s (record s.cohort { non_included = add m.from s.cohort.non_included })
  unfolding handle_submit_non_inclusion add_non_inclusion store_response when or_reject call
  decline_lem open_ member fresh =
      let (absent, free) =
        or_false (has m.from s.cohort.pending_updates) (includes m.from s.cohort.non_included)
          fresh in
      rw (open_, member, fresh, absent) refl

  update_lem :
      (u : Json)
      → is_collecting s.phase ≡ true
      → includes m.from s.cohort.participants ≡ true
      → has_responded m.from s.cohort ≡ false
      → IsVerified host s m u
      → (handle_submit_update host m s).1
        ≡ responded_state s
            (record s.cohort { pending_updates = set m.from u s.cohort.pending_updates })
  unfolding handle_submit_update check_update accept_update add_update store_response when or_reject
      call with_update
  update_lem u open_ member fresh v =
      let (absent, free) =
        or_false (has m.from s.cohort.pending_updates) (includes m.from s.cohort.non_included)
          fresh in
      rw (open_, v.carried, v.small, v.verified, free, absent, member) refl

  -- A response of a member that has not answered yet is taken.
  pub receive_action-Responded :
      is_collecting s.phase ≡ true
      → IsResponse host id s m
      → has_responded m.from s.cohort ≡ false
      → (k : Cohort) × (Responded m.from s.cohort k)
        × ((receive_action host id m s).1 ≡ responded_state s k)
  unfolding receive_action
  receive_action-Responded open_ r fresh = elim r.answer [
    | inl declines ↦ (
      record s.cohort { non_included = add m.from s.cohort.non_included },
      declined m.from s.cohort fresh,
      rw r.speaks (
          subst
            (λ t.
              (handle host id m t s).1
              ≡ responded_state s
                  (record s.cohort { non_included = add m.from s.cohort.non_included }))
            (sym declines) (unfold handle in decline_lem open_ r.member fresh)),
    )
    | inr (u, v) ↦ (
      record s.cohort { pending_updates = set m.from u s.cohort.pending_updates },
      updated m.from u s.cohort fresh,
      rw r.speaks (
          subst
            (λ t.
              (handle host id m t s).1
              ≡ responded_state s
                  (record s.cohort { pending_updates = set m.from u s.cohort.pending_updates }))
            (sym v.submits) (unfold handle in update_lem u open_ r.member fresh v)),
    )
  ]
