-- ===== src/Aggregation/Service/Phases.antt =====
-- The phases of a cohort at the service as a table of transitions, beside the methods of the service.
pub mod Messages
use did_btcr2_js.Prelude.{
  Bool, ap, arith, false, if◌then◌else◌, inl, inr, nat_beq, refl, subst, sym, true, ℕ, ◌||◌, ◌∙◌,
  ◌≡◌, ◌⊎◌,
}
use did_btcr2_js.Aggregation.Service.Signing.{
  SigningTxData, begin_signing, fallback_action, is_signing, nonce_action, request_fallback,
  start_action, store_nonce_sum,
}
use did_btcr2_js.Aggregation.Service.{
  CohortState, Host, ServiceError, ServicePhase, advertised, awaiting_partial_sigs, cohort_set,
  collecting_updates, complete, created, data_distributed, failed, fallback_requested, is_in,
  nonces_collected, service_phase_number, signing_started, updates_collected, validated,
}
use did_btcr2_js.Prelude.Step.{call_ends, need_ends, need_some_ends}
use did_btcr2_js.Aggregation.Cohort.{Cohort, CohortError}
use did_btcr2_js.Aggregation.Service.Operator.{
  accept_action, advertise_action, distribute_action, finalize_action, start_advert, store_data,
  store_keygen, store_participant,
}
use did_btcr2_js.Prelude.Result.{Result, err, ok}
use Prim.Native.String.{String}

-- The transitions of the protocol.
pub data Advance : ServicePhase → ServicePhase → Type 0 where
  adverts : Advance created advertised
  keygen : Advance advertised cohort_set
  first_response : Advance cohort_set collecting_updates
  only_response : Advance cohort_set updates_collected
  last_response : Advance collecting_updates updates_collected
  distribution : Advance updates_collected data_distributed
  approval : Advance data_distributed validated
  refusal : Advance data_distributed failed
  signing : Advance validated signing_started
  nonces : Advance signing_started nonces_collected
  nonce_sum : Advance nonces_collected awaiting_partial_sigs
  key_path_spend : Advance awaiting_partial_sigs complete
  fallback_at_start : Advance signing_started fallback_requested
  fallback_at_nonces : Advance nonces_collected fallback_requested
  fallback_at_partials : Advance awaiting_partial_sigs fallback_requested
  script_path_spend : Advance fallback_requested complete

-- A method leaves the phase alone, or makes one transition.
abbrev pub Allowed : ServicePhase → ServicePhase → Type 0
Allowed p q = (p ≡ q) ⊎ Advance p q

abbrev pub Moves : {A : Type 0} → ServicePhase → Result ServiceError A × CohortState → Type 0
Moves p r = Allowed p r.1.phase

abbrev numbered : ℕ → ServicePhase
numbered n =
    if nat_beq n 0
    then created
    else if nat_beq n 1
    then advertised
    else if nat_beq n 2
    then cohort_set
    else if nat_beq n 3
    then collecting_updates
    else if nat_beq n 4
    then updates_collected
    else if nat_beq n 5
    then data_distributed
    else if nat_beq n 6
    then validated
    else if nat_beq n 7
    then signing_started
    else if nat_beq n 8
    then nonces_collected
    else if nat_beq n 9
    then awaiting_partial_sigs
    else if nat_beq n 10
    then fallback_requested
    else if nat_beq n 11
    then complete
    else failed

numbered-service_phase_number : (p : ServicePhase) → numbered (service_phase_number p) ≡ p
unfolding service_phase_number
numbered-service_phase_number created = refl
numbered-service_phase_number advertised = refl
numbered-service_phase_number cohort_set = refl
numbered-service_phase_number collecting_updates = refl
numbered-service_phase_number updates_collected = refl
numbered-service_phase_number data_distributed = refl
numbered-service_phase_number validated = refl
numbered-service_phase_number signing_started = refl
numbered-service_phase_number nonces_collected = refl
numbered-service_phase_number awaiting_partial_sigs = refl
numbered-service_phase_number fallback_requested = refl
numbered-service_phase_number complete = refl
numbered-service_phase_number failed = refl

pub is_in-eq : (p q : ServicePhase) → is_in p q ≡ true → p ≡ q
is_in-eq p q h =
    let same : service_phase_number p ≡ service_phase_number q = ground (arith, h) in
    sym (numbered-service_phase_number p) ∙ ap numbered same ∙ numbered-service_phase_number q

pub advance_from :
    (p q : ServicePhase) {r : ServicePhase} → is_in p q ≡ true → Advance q r → Allowed p r
advance_from p q {r} h step = inr (subst (λ x. Advance x r) (sym (is_in-eq p q h)) step)

pub or_true : (a b : Bool) → (a || b) ≡ true → (a ≡ true) ⊎ (b ≡ true)
or_true true b h = inl refl
or_true false b h = inr h

module _ (host : Host) (id : String) (s : CohortState) where
  pub advertise_action-Moves : Moves s.phase (advertise_action host id s)
  unfolding advertise_action start_advert
  advertise_action-Moves =
      need_ends (Moves s.phase) _ _ _ s (inl refl) (λ e. advance_from s.phase created e adverts)

  pub accept_action-Moves : (did : String) → Moves s.phase (accept_action host id did s)
  unfolding accept_action store_participant
  accept_action-Moves did = need_some_ends (Moves s.phase) _ _ _ s (inl refl) (λ opt_in e1.
      need_ends (Moves s.phase) _ _ _ s (inl refl)
        (λ e2. need_ends (Moves s.phase) _ _ _ s (inl refl) (λ e3. inl refl)))

  store_keygen-Moves :
      is_in s.phase advertised ≡ true
      → (r : Result CohortError String × Cohort) → Moves s.phase (store_keygen host id r s)
  unfolding store_keygen
  store_keygen-Moves h (err e, k) = inl refl
  store_keygen-Moves h (ok address, k) = advance_from s.phase advertised h keygen

  pub finalize_action-Moves : Moves s.phase (finalize_action host id s)
  unfolding finalize_action
  finalize_action-Moves = need_ends (Moves s.phase) _ _ _ s (inl refl) (λ e1.
      need_ends (Moves s.phase) _ _ _ s (inl refl)
        (λ e2. need_ends (Moves s.phase) _ _ _ s (inl refl) (λ e3. store_keygen-Moves e1 _)))

  pub distribute_action-Moves : Moves s.phase (distribute_action host id s)
  unfolding distribute_action store_data
  distribute_action-Moves = need_ends (Moves s.phase) _ _ _ s (inl refl) (λ e1.
      need_some_ends (Moves s.phase) _ _ _ s (inl refl) (λ strategy e2.
        call_ends (Moves s.phase) _ _ _ s (λ e. inl refl)
          (λ data_of e3. advance_from s.phase updates_collected e1 distribution)))

  pub start_action-Moves :
      (session_id : String) (tx : SigningTxData)
      → Moves s.phase (start_action host id session_id tx s)
  unfolding start_action begin_signing
  start_action-Moves session_id tx = need_ends (Moves s.phase) _ _ _ s (inl refl) (λ e1.
      let moved = advance_from s.phase validated e1 signing in
      need_some_ends (Moves s.phase) _ _ _ _ moved (λ script e2. moved))

  pub nonce_action-Moves : Moves s.phase (nonce_action host id s)
  unfolding nonce_action store_nonce_sum
  nonce_action-Moves = need_ends (Moves s.phase) _ _ _ s (inl refl) (λ e1.
      need_some_ends (Moves s.phase) _ _ _ s (inl refl) (λ session e2.
        call_ends (Moves s.phase) _ _ _ s (λ e. inl refl)
          (λ r e3. advance_from s.phase nonces_collected e1 nonce_sum)))

  fallback_from : is_signing s.phase ≡ true → Allowed s.phase fallback_requested
  fallback_from h = elim (or_true _ _ h) [
    | inr e ↦ advance_from s.phase awaiting_partial_sigs e fallback_at_partials
    | inl a ↦ elim (or_true _ _ a) [
      | inl e ↦ advance_from s.phase signing_started e fallback_at_start
      | inr e ↦ advance_from s.phase nonces_collected e fallback_at_nonces
    ]
  ]

  pub fallback_action-Moves : Moves s.phase (fallback_action host id s)
  unfolding fallback_action request_fallback
  fallback_action-Moves = need_some_ends (Moves s.phase) _ _ _ s (inl refl) (λ session e1.
      need_ends (Moves s.phase) _ _ _ s (inl refl) (λ e2.
        need_some_ends (Moves s.phase) _ _ _ s (inl refl) (λ prev_out e3.
          call_ends (Moves s.phase) _ _ _ s (λ e. inl refl) (λ leaf e4. fallback_from e2))))
