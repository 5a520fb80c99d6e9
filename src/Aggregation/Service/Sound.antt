-- ===== src/Aggregation/Service/Sound.antt =====
-- What the service keeps true of a cohort's members, keys and responses.
pub mod Responses
pub mod Changes
pub mod Operator
pub mod Messages
use did_btcr2_js.Prelude.{
  All, List, Option, false, is_some, length, nat_eq, refl, some, string_eq, subst, sym, true, ◌≡◌,
  none,
}
use did_btcr2_js.Prelude.Dict.{Dict, get, has, includes}
use did_btcr2_js.Common.Json.{Json}
use did_btcr2_js.Prelude.Result.{Result, err, ok}
use did_btcr2_js.Aggregation.Recovery.{Payment, Taproot}
use did_btcr2_js.Aggregation.Cohort.Address.{
  beacon_payment, compute_beacon_address, store_address, store_payment,
}
use did_btcr2_js.Smt.Hash.{Bytes}
use did_btcr2_js.Aggregation.Cohort.{Cohort, CohortError}
use did_btcr2_js.Aggregation.Service.{CohortState, Host, PendingOptIn, complete}
use did_btcr2_js.Aggregation.Conditions.{CohortConditions}
use did_btcr2_js.Aggregation.Service.Operator.{is_over}
use Prim.Native.String.{String}
use did_btcr2_js.Aggregation.Conditions.Admissible.{IsAdmissible}
use did_btcr2_js.Resolver.Updates.{updates}

-- The update of x passed the proof check with the key of the opt-in of its sender.
abbrev pub IsProven : Host → Dict String PendingOptIn → String × Json → Type 0
IsProven host opt_ins x =
    (o : PendingOptIn) × (method : String) × (get x.0 opt_ins ≡ some o)
    × (host.verify_proof method x.0 o.participant_pk x.1 ≡ true)

pub record Core (host : Host) (accepted : List String) (opt_ins : Dict String PendingOptIn)
    (conditions : CohortConditions) (members : List String) (keys : Dict String Bytes)
    (updates : Dict String Json) (declines : List String) : Type 0 where
  pub admissible : IsAdmissible conditions
  pub accepted_members : accepted ≡ members
  pub keyed :
      (did : String)
      → includes did accepted ≡ true
      → (o : PendingOptIn) × (get did opt_ins ≡ some o) × (get did keys ≡ some o.participant_pk)
  pub within : is_over conditions.max_participants (length accepted) ≡ false
  pub updates_from : All (λ x. includes x.0 members ≡ true) updates
  pub declines_from : All (λ d. includes d members ≡ true) declines
  pub exclusive : (did : String) → includes did declines ≡ true → has did updates ≡ false
  pub proven : All (IsProven host opt_ins) updates

-- The state of a cohort, given its cohort object.
abbrev pub CoreOf : Host → CohortState → Cohort → Type 0
CoreOf host s k =
    Core host s.accepted_participants s.pending_opt_ins s.config.conditions k.participants
      k.participant_keys k.pending_updates k.non_included

-- The accepted participants are the cohort's members, within the advertised maximum; the key of each
-- is that of its opt-in; updates and declines come from members, no member has both, and every update
-- passed the proof check with its sender's key; a cohort that is complete has a result.
pub record IsSound (host : Host) (s : CohortState) : Type 0 where
  pub core : CoreOf host s s.cohort
  pub completed : s.phase ≡ complete → is_some s.result ≡ true

abbrev pub SameResponses : Cohort → Cohort → Type 0
SameResponses k k' =
    (k'.participants ≡ k.participants)
    × (k'.participant_keys ≡ k.participant_keys)
    × (k'.pending_updates ≡ k.pending_updates)
    × (k'.non_included ≡ k.non_included)

pub core_same :
    (host : Host) (s : CohortState) (k k' : Cohort)
    → SameResponses k k'
    → CoreOf host s k
    → CoreOf host s k'
core_same host s k k' (a, b, c, d) core =
    subst
      (λ x.
        Core host s.accepted_participants s.pending_opt_ins s.config.conditions x
          k'.participant_keys k'.pending_updates k'.non_included)
      (sym a)
      (subst
        (λ x.
          Core host s.accepted_participants s.pending_opt_ins s.config.conditions k.participants x
            k'.pending_updates k'.non_included)
        (sym b)
        (subst
          (λ x.
            Core host s.accepted_participants s.pending_opt_ins s.config.conditions k.participants
              k.participant_keys x k'.non_included)
          (sym c)
          (subst
            (λ x.
              Core host s.accepted_participants s.pending_opt_ins s.config.conditions k.participants
                k.participant_keys k.pending_updates x)
            (sym d) core)))

pub compute_beacon_address-SameResponses :
    (t : Taproot) (k : Cohort) → SameResponses k (compute_beacon_address t k).1
unfolding compute_beacon_address
compute_beacon_address-SameResponses t k = stored (beacon_payment t k)
  where
    paid :
        (key : Bytes) (p : Payment) (a : Option String)
        → p.address ≡ a
        → SameResponses k (store_payment t k key p).1
    paid key p none e = unfold store_payment in rw e (refl, refl, refl, refl)
    paid key p (some a) e = unfold store_payment in rw e (refl, refl, refl, refl)

    stored : (r : Result CohortError (Bytes × Payment)) → SameResponses k (store_address t k r).1
    stored (err e) = unfold store_address in (refl, refl, refl, refl)
    stored (ok (key, p)) = unfold store_address in paid key p p.address refl
