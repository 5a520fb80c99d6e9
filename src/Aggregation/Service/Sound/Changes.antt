-- ===== src/Aggregation/Service/Sound/Changes.antt =====
-- The four changes that the service makes to a cohort's opt-ins, members and responses.
use did_btcr2_js.Prelude.{
  All-map, All-zip, Bool-cases, List, Option, [], ap, arith, false, from_option, inl, inr, is_some,
  leb, length, ltb, nat_eq, refl, some, string_eq, subst, suc, sym, true, ℕ, ◌&&◌, ◌++◌, ◌==◌, ◌∙◌,
  ◌∷◌, ◌≡◌, none,
}
use did_btcr2_js.Prelude.Sets.{
  add-fresh, get-set_other, get-set_self, includes-add, includes-append, includes-ne, length-add,
}
use Prim.Native.String.{String}
use did_btcr2_js.Aggregation.Service.Handlers.{verify_method, verify_submitted_update, verify_with}
use did_btcr2_js.Smt.Hash.{Bytes}
use did_btcr2_js.Aggregation.Service.Operator.{is_full, is_over}
use did_btcr2_js.Prelude.Dict.{All-set, add, get, has, includes, set}
use did_btcr2_js.Common.Number.{Number, at_least, below}
use did_btcr2_js.Common.Json.{as_text, Json, get_field, is_true, null}
use did_btcr2_js.Aggregation.Service.Sound.{CoreOf, IsProven}
use did_btcr2_js.Aggregation.Conditions.Admissible.{IsAtLeast, Optional}
use did_btcr2_js.Aggregation.Service.{CohortState, Host, PendingOptIn}
use did_btcr2_js.Prelude.Result.{ok}
use did_btcr2_js.Aggregation.Cohort.Responses.{All-add}
use did_btcr2_js.Common.Text.{first_part}

verify_method-IsProven :
    (host : Host) (s : CohortState) (did : String) (u : Json) (method : Option String)
    → verify_method host s did u method ≡ ok true
    → IsProven host s.pending_opt_ins (did, u)
unfolding verify_method verify_with
verify_method-IsProven host s did u none e = cc
verify_method-IsProven host s did u (some method) e =
    found (get did s.pending_opt_ins) refl (ground arith)
  where
    found :
        (o : Option PendingOptIn)
        → get did s.pending_opt_ins ≡ o
        → (first_part b'#' method == did && elim o [
          | none ↦ false
          | some opt_in ↦ host.verify_proof method did opt_in.participant_pk u
        ])
          ≡ true
        → IsProven host s.pending_opt_ins (did, u)
    found none g h = ground arith
    found (some opt_in) g h = (opt_in, method, g, ground arith)

pub verify_submitted_update-IsProven :
    (host : Host) (s : CohortState) (did : String) (u : Json)
    → verify_submitted_update host s did u ≡ ok true
    → IsProven host s.pending_opt_ins (did, u)
unfolding verify_submitted_update
verify_submitted_update-IsProven host s did u e =
    elim (Bool-cases
      (is_true (get_field "verificationMethod" proof) && is_true (get_field "proofValue" proof))) [
        | inl t ↦
            verify_method-IsProven host s did u (as_text (get_field "verificationMethod" proof))
              (rw t at e)
        | inr f ↦ let e' : ok false ≡ ok true = rw f at e in cc
      ]
  where
    proof : Json
    proof = from_option null (get_field "proof" u)

module _ (host : Host) (s : CohortState) (core : CoreOf host s s.cohort) where
  open s use {accepted_participants as accepted, pending_opt_ins as opt_ins, cohort as k, config}

  -- Members are accepted participants, and conversely.
  to_accepted : (did : String) → includes did k.participants ≡ true → includes did accepted ≡ true
  to_accepted did h = subst (λ x. includes did x ≡ true) (sym core.accepted_members) h

  pub opt_in-core :
      (did : String) (o : PendingOptIn)
      → includes did accepted ≡ false
      → CoreOf host (record s { pending_opt_ins = set did o opt_ins }) k
  opt_in-core did o absent = record {
    admissible = core.admissible;
    accepted_members = core.accepted_members;
    keyed = λ d h.
        let (old, at, key) = core.keyed d h in
        (old, get-set_other did d o opt_ins (includes-ne did d accepted absent h) ∙ at, key);
    within = core.within;
    updates_from = core.updates_from;
    declines_from = core.declines_from;
    exclusive = core.exclusive;
    proven =
        All-zip k.pending_updates
          (λ x from (old, method, at, verified). (
            old,
            method,
            get-set_other did x.0 o opt_ins
                  (includes-ne did x.0 accepted absent (to_accepted x.0 from))
                ∙ at,
            verified,
          ))
          core.updates_from core.proven;
  }

  -- One more is within the maximum where the cohort was not full.
  room :
      (max : Option Number) (n : ℕ)
      → Optional (IsAtLeast 1) max
      → is_full max n ≡ false
      → is_over max (suc n) ≡ false
  unfolding at_least below
  room none n h e = refl
  room (some max) n (m, em, least) e =
      subst (λ x. below x (suc n) ≡ false) (sym em)
        (smaller (subst (λ x. at_least n x ≡ false) em e))
    where
      smaller : leb m n ≡ false → ltb m (suc n) ≡ false
      smaller h = ground arith

  pub accept-core :
      (did : String) (o : PendingOptIn) (keys : List Bytes)
      → get did opt_ins ≡ some o
      → includes did accepted ≡ false
      → is_full config.conditions.max_participants (length accepted) ≡ false
      → CoreOf host
          (record s { accepted_participants = add did accepted })
          (record k {
            participants = k.participants ++ did ∷ [];
            participant_keys = set did o.participant_pk k.participant_keys;
            cohort_keys = keys;
          })
  accept-core did o keys found absent free = record {
    admissible = core.admissible;
    accepted_members =
        add-fresh did accepted absent ∙ ap (λ x. x ++ did ∷ []) core.accepted_members;
    keyed = λ d h. elim (Bool-cases (did == d)) [
      | inl same ↦
          subst
            (λ x.
              (p : PendingOptIn) × (get x opt_ins ≡ some p)
              × (get x (set did o.participant_pk k.participant_keys) ≡ some p.participant_pk))
            ((string_eq.beq_iff did d).0 same)
            (o, found, get-set_self did o.participant_pk k.participant_keys)
      | inr differ ↦
          let (old, at, key) = core.keyed d (before d h differ) in
          (old, at, get-set_other did d o.participant_pk k.participant_keys differ ∙ key)
    ];
    within =
        subst (λ n. is_over config.conditions.max_participants n ≡ false)
          (sym (length-add did accepted ∙ rw absent refl))
          (room config.conditions.max_participants (length accepted)
            core.admissible.max_participants free);
    updates_from = All-map k.pending_updates (λ x h. more x.0 h) core.updates_from;
    declines_from = All-map k.non_included (λ d h. more d h) core.declines_from;
    exclusive = core.exclusive;
    proven = core.proven;
  }
    where
      before :
          (d : String)
          → includes d (add did accepted) ≡ true
          → (did == d) ≡ false
          → includes d accepted ≡ true
      before d h differ = ground (arith, includes-add did d accepted)

      more :
          (d : String)
          → includes d k.participants ≡ true
          → includes d (k.participants ++ did ∷ []) ≡ true
      more d h = ground (arith, includes-append did d k.participants)

  pub update-core :
      (did : String) (u : Json)
      → includes did k.participants ≡ true
      → includes did k.non_included ≡ false
      → IsProven host opt_ins (did, u)
      → CoreOf host s (record k { pending_updates = set did u k.pending_updates })
  update-core did u member free verified = record {
    admissible = core.admissible;
    accepted_members = core.accepted_members;
    keyed = core.keyed;
    within = core.within;
    updates_from =
        All-set (λ x. includes x.0 k.participants ≡ true) did u k.pending_updates core.updates_from
          member;
    declines_from = core.declines_from;
    exclusive = λ d h.
        ap is_some
          (get-set_other did d u k.pending_updates (includes-ne did d k.non_included free h))
        ∙ core.exclusive d h;
    proven = All-set (IsProven host opt_ins) did u k.pending_updates core.proven verified;
  }

  pub decline-core :
      (did : String)
      → includes did k.participants ≡ true
      → has did k.pending_updates ≡ false
      → CoreOf host s (record k { non_included = add did k.non_included })
  decline-core did member free = record {
    admissible = core.admissible;
    accepted_members = core.accepted_members;
    keyed = core.keyed;
    within = core.within;
    updates_from = core.updates_from;
    declines_from =
        All-add (λ d. includes d k.participants ≡ true) did k.non_included member
          core.declines_from;
    exclusive = λ d h. elim (Bool-cases (did == d)) [
      | inl same ↦
          subst (λ x. has x k.pending_updates ≡ false) ((string_eq.beq_iff did d).0 same) free
      | inr differ ↦ core.exclusive d (before d h differ)
    ];
    proven = core.proven;
  }
    where
      before :
          (d : String)
          → includes d (add did k.non_included) ≡ true
          → (did == d) ≡ false
          → includes d k.non_included ≡ true
      before d h differ = ground (arith, includes-add did d k.non_included)
