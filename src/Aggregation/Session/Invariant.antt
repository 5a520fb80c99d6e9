-- ===== src/Aggregation/Session/Invariant.antt =====
-- The phases of a signing session beside what it has collected.
use did_btcr2_js.Prelude.{
  nat_beq_iff, Bool-cases, if◌then◌else◌, inl, inr, ap, arith, nat_beq, not, subst, sym, ◌∙◌, All,
  List, [], is_some, length, nat_eq, none, refl, string_eq, true, ℕ, ◌≡◌,
}
use did_btcr2_js.Aggregation.Session.{
  add_partial_signature, duplicate_partial_sig, store_nonce, store_partial, unknown_participant,
  add_nonce_contribution, duplicate_nonce, invalid_nonce_length, invalid_phase, phase_number, Phase,
  Session, awaiting_nonce_contributions, awaiting_partial_signatures, complete, failed, new_session,
  nonce_contributions_received, partial_signatures_received, same_phase,
}
use did_btcr2_js.Prelude.Dict.{set, All-set, Distinct-set, has, Dict, Distinct, includes}
use Prim.Native.String.{String}
use did_btcr2_js.Aggregation.Cohort.{Cohort}
use did_btcr2_js.Smt.Hash.{Bytes}
use did_btcr2_js.Prelude.Result.{Holds, Holds->>=, guard, guard-eq-ok}

abbrev pub AreMembers : Cohort → Dict String Bytes → Type 0
AreMembers k = All (λ x. includes x.0 k.participants ≡ true)

-- What each phase promises of the collections.
abbrev pub PhaseHolds : Session → Phase → Type 0
PhaseHolds s awaiting_nonce_contributions =
    (s.partial_signatures ≡ []) × (s.aggregated_nonce ≡ none) × (s.signature ≡ none)
PhaseHolds s nonce_contributions_received =
    (length s.nonce_contributions ≡ length s.cohort.participants)
    × (s.partial_signatures ≡ [])
    × (s.signature ≡ none)
PhaseHolds s awaiting_partial_signatures =
    (length s.nonce_contributions ≡ length s.cohort.participants)
    × (is_some s.aggregated_nonce ≡ true)
    × (s.signature ≡ none)
PhaseHolds s partial_signatures_received =
    (length s.nonce_contributions ≡ length s.cohort.participants)
    × (length s.partial_signatures ≡ length s.cohort.participants)
    × (is_some s.aggregated_nonce ≡ true)
    × (s.signature ≡ none)
PhaseHolds s complete =
    (length s.nonce_contributions ≡ length s.cohort.participants)
    × (length s.partial_signatures ≡ length s.cohort.participants)
    × (is_some s.signature ≡ true)
PhaseHolds s failed = Unit

-- Contributions come from participants of the cohort, one from each, and the phase agrees with them.
pub record IsConsistent (s : Session) : Type 0 where
  pub nonces_distinct : Distinct s.nonce_contributions
  pub nonce_members : AreMembers s.cohort s.nonce_contributions
  pub partials_distinct : Distinct s.partial_signatures
  pub partial_members : AreMembers s.cohort s.partial_signatures
  pub in_phase : PhaseHolds s s.phase

abbrev numbered : ℕ → Phase
numbered n =
    if nat_beq n 0
    then awaiting_nonce_contributions
    else if nat_beq n 1
    then nonce_contributions_received
    else if nat_beq n 2
    then awaiting_partial_signatures
    else if nat_beq n 3
    then partial_signatures_received
    else if nat_beq n 4
    then complete
    else failed

numbered-phase_number : (p : Phase) → numbered (phase_number p) ≡ p
unfolding phase_number
numbered-phase_number awaiting_nonce_contributions = refl
numbered-phase_number nonce_contributions_received = refl
numbered-phase_number awaiting_partial_signatures = refl
numbered-phase_number partial_signatures_received = refl
numbered-phase_number complete = refl
numbered-phase_number failed = refl

pub same_phase-eq : (p q : Phase) → same_phase p q ≡ true → p ≡ q
same_phase-eq p q h =
    let same : phase_number p ≡ phase_number q = ground (arith, h) in
    sym (numbered-phase_number p) ∙ ap numbered same ∙ numbered-phase_number q

pub new_session-IsConsistent :
    (id : String) (k : Cohort) (tx : Bytes) (scripts : List Bytes) (values : List ℕ)
    → IsConsistent (new_session id k tx scripts values)
unfolding new_session
new_session-IsConsistent id k tx scripts values = record {
  nonces_distinct = tt;
  nonce_members = tt;
  partials_distinct = tt;
  partial_members = tt;
  in_phase = (refl, refl, refl);
}

module _ (s : Session) (c : IsConsistent s) where
  -- What the phase promises, where a guard has found the phase out.
  pub in_phase_of : (p : Phase) → same_phase s.phase p ≡ true → PhaseHolds s p
  in_phase_of p h = subst (PhaseHolds s) (same_phase-eq s.phase p h) c.in_phase

  store_nonce-phase :
      (did : String) (nonce : Bytes)
      → s.phase ≡ awaiting_nonce_contributions
      → PhaseHolds (store_nonce s did nonce) (store_nonce s did nonce).phase
  store_nonce-phase did nonce e =
      let all =
        nat_beq (length (set did nonce s.nonce_contributions)) (length s.cohort.participants) in
      let now = subst (PhaseHolds s) e c.in_phase in
      elim (Bool-cases all) [
        | inl t ↦
            subst
              (λ b.
                PhaseHolds (store_nonce s did nonce)
                  (if b then nonce_contributions_received else s.phase))
              (sym t) ((nat_beq_iff _ _).0 t, now.0, now.2)
        | inr t ↦
            subst
              (λ b.
                PhaseHolds (store_nonce s did nonce)
                  (if b then nonce_contributions_received else s.phase))
              (sym t) (subst (PhaseHolds (store_nonce s did nonce)) (sym e) now)
      ]

  pub add_nonce_contribution-IsConsistent :
      (did : String) (nonce : Bytes) → Holds IsConsistent (add_nonce_contribution s did nonce)
  unfolding add_nonce_contribution
  add_nonce_contribution-IsConsistent did nonce =
      Holds->>= IsConsistent (guard (same_phase s.phase awaiting_nonce_contributions) invalid_phase)
        _
        (λ _ e1.
          Holds->>= IsConsistent (guard (includes did s.cohort.participants) unknown_participant) _
            (λ _ e2.
              Holds->>= IsConsistent (guard (nat_beq (length nonce) 66) invalid_nonce_length) _
                (λ _ e3.
                  Holds->>= IsConsistent
                    (guard (not (has did s.nonce_contributions)) duplicate_nonce) _
                    (λ _ e4. record {
                      nonces_distinct =
                          Distinct-set did nonce s.nonce_contributions c.nonces_distinct;
                      nonce_members =
                          All-set (λ x. includes x.0 s.cohort.participants ≡ true) did nonce
                            s.nonce_contributions c.nonce_members (guard-eq-ok _ _ e2);
                      partials_distinct = c.partials_distinct;
                      partial_members = c.partial_members;
                      in_phase =
                          store_nonce-phase did nonce (same_phase-eq _ _ (guard-eq-ok _ _ e1));
                    }))))

  store_partial-phase :
      (did : String) (partial_sig : Bytes)
      → s.phase ≡ awaiting_partial_signatures
      → PhaseHolds (store_partial s did partial_sig) (store_partial s did partial_sig).phase
  store_partial-phase did partial_sig e =
      let all =
        nat_beq (length (set did partial_sig s.partial_signatures))
          (length s.cohort.participants) in
      let now = subst (PhaseHolds s) e c.in_phase in
      elim (Bool-cases all) [
        | inl t ↦
            subst
              (λ b.
                PhaseHolds (store_partial s did partial_sig)
                  (if b then partial_signatures_received else s.phase))
              (sym t) (now.0, (nat_beq_iff _ _).0 t, now.1, now.2)
        | inr t ↦
            subst
              (λ b.
                PhaseHolds (store_partial s did partial_sig)
                  (if b then partial_signatures_received else s.phase))
              (sym t) (subst (PhaseHolds (store_partial s did partial_sig)) (sym e) now)
      ]

  pub add_partial_signature-IsConsistent :
      (did : String) (partial_sig : Bytes)
      → Holds IsConsistent (add_partial_signature s did partial_sig)
  unfolding add_partial_signature
  add_partial_signature-IsConsistent did partial_sig =
      Holds->>= IsConsistent (guard (same_phase s.phase awaiting_partial_signatures) invalid_phase)
        _
        (λ _ e1.
          Holds->>= IsConsistent (guard (includes did s.cohort.participants) unknown_participant) _
            (λ _ e2.
              Holds->>= IsConsistent
                (guard (not (has did s.partial_signatures)) duplicate_partial_sig) _
                (λ _ e3. record {
                  nonces_distinct = c.nonces_distinct;
                  nonce_members = c.nonce_members;
                  partials_distinct =
                      Distinct-set did partial_sig s.partial_signatures c.partials_distinct;
                  partial_members =
                      All-set (λ x. includes x.0 s.cohort.participants ≡ true) did partial_sig
                        s.partial_signatures c.partial_members (guard-eq-ok _ _ e2);
                  in_phase =
                      store_partial-phase did partial_sig (same_phase-eq _ _ (guard-eq-ok _ _ e1));
                })))
