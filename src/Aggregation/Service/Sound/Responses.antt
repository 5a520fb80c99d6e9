-- ===== src/Aggregation/Service/Sound/Responses.antt =====
-- What a response does to the cohort.
use did_btcr2_js.Prelude.{
  inl, inr, Bool, Bool-cases, nat_eq, not, refl, string_eq, subst, true, ◌≡◌,
}
use did_btcr2_js.Prelude.Step.{if_ends}
use did_btcr2_js.Common.Json.{Json}
use did_btcr2_js.Aggregation.Cohort.{
  Cohort, add_non_inclusion, add_update, add_validation, conflicting_response, has_all_responses,
  unknown_participant,
}
use did_btcr2_js.Aggregation.Service.Handlers.{is_collecting, phase_after_response}
use did_btcr2_js.Aggregation.Service.{
  ServicePhase, cohort_set, collecting_updates, complete, is_in, service_phase_number,
  updates_collected,
}
use did_btcr2_js.Prelude.Result.{Holds, Holds->>=, guard, guard-eq-ok}
use did_btcr2_js.Aggregation.Service.Sound.{SameResponses}
use did_btcr2_js.Prelude.Dict.{add, has, includes, set}
use Prim.Native.String.{String}

pub add_update-Holds :
    (k : Cohort) (did : String) (u : Json)
    → Holds
        (λ k'.
          (k' ≡ record k { pending_updates = set did u k.pending_updates })
          × (includes did k.participants ≡ true))
        (add_update k did u)
unfolding add_update
add_update-Holds k did u =
    Holds->>=
      (λ k'.
        (k' ≡ record k { pending_updates = set did u k.pending_updates })
        × (includes did k.participants ≡ true))
      (guard (includes did k.participants) unknown_participant) _
      (λ _ e. (refl, guard-eq-ok _ unknown_participant e))

pub add_non_inclusion-Holds :
    (k : Cohort) (did : String)
    → Holds
        (λ k'. k' ≡ record k { non_included = add did k.non_included })
        (add_non_inclusion k did)
unfolding add_non_inclusion
add_non_inclusion-Holds k did =
    Holds->>= (λ k'. k' ≡ record k { non_included = add did k.non_included })
      (guard (includes did k.participants) unknown_participant) _
      (λ _ e1.
        Holds->>= (λ k'. k' ≡ record k { non_included = add did k.non_included })
          (guard (not (has did k.pending_updates)) conflicting_response) _ (λ _ e2. refl))

pub add_validation-Holds :
    (k : Cohort) (did : String) (approved : Bool)
    → Holds (SameResponses k) (add_validation k did approved)
unfolding add_validation
add_validation-Holds k did approved =
    Holds->>= (SameResponses k) (guard (includes did k.participants) unknown_participant) _
      (λ _ e. if_ends (SameResponses k) approved (refl, refl, refl, refl) (refl, refl, refl, refl))

pub phase_after_response-ne :
    (p : ServicePhase) (k : Cohort)
    → is_collecting p ≡ true
    → phase_after_response p k ≡ complete
    → ⊥
unfolding phase_after_response
phase_after_response-ne p k h e = elim (Bool-cases (has_all_responses k)) [
  | inl all_there ↦ let e' : updates_collected ≡ complete = rw all_there at e in cc
  | inr missing ↦ elim (Bool-cases (is_in p cohort_set)) [
    | inl first ↦ let e' : collecting_updates ≡ complete = rw (missing, first) at e in cc
    | inr later ↦
        let e' : p ≡ complete = rw (missing, later) at e in
        let h' : is_collecting complete ≡ true = subst (λ x. is_collecting x ≡ true) e' h in
        unfold service_phase_number in cc h'
  ]
]
