-- ===== src/Aggregation/Service/Runs.antt =====
-- Runs of the service: messages and the operator's calls, in any order, on any cohorts.
pub mod Results
use did_btcr2_js.Prelude.{
  Bool-cases, Option, [], ap, inl, inr, nat_eq, refl, some, string_eq, subst, sym, ◌==◌, ◌∙◌, ◌≡◌,
  ◌⊎◌, none,
}
use did_btcr2_js.Aggregation.Service.{
  Action, CohortConfig, CohortState, Host, Service, ServiceError, cohort_not_found, remove_cohort,
  run_at, run_found,
}
use did_btcr2_js.Aggregation.Service.Operator.{
  drain_found, accept_action, advertise_action, distribute_action, finalize_action,
  accept_participant, advertise, build_and_distribute, create_cohort, drain_rejections,
  finalize_keygen,
}
use did_btcr2_js.Aggregation.Service.Signing.{
  fallback_action, nonce_action, start_action, SigningTxData, send_aggregated_nonce,
  start_fallback_signing, start_signing,
}
use did_btcr2_js.Prelude.Result.{ok, Result, err}
use did_btcr2_js.Prelude.Dict.{get, get-set, set}
use did_btcr2_js.Prelude.Sets.{get-set_other}
use Prim.Native.String.{String}
use did_btcr2_js.Aggregation.Messages.{truthy, Message}
use did_btcr2_js.Aggregation.Service.Receive.{receive_action, receive_named, receive}

-- The operator's calls, each by the arguments of its method.
pub data Operation : Type 0 where
  advertising finalizing distributing summing falling_back draining : String → Operation
  accepting : String → String → Operation
  signing : String → String → SigningTxData → Operation

unfoldable pub operate : Host → Operation → Service → Service
operate host (Operation.advertising id) service = (advertise host id service).1
operate host (Operation.finalizing id) service = (finalize_keygen host id service).1
operate host (Operation.distributing id) service = (build_and_distribute host id service).1
operate host (Operation.summing id) service = (send_aggregated_nonce host id service).1
operate host (Operation.falling_back id) service = (start_fallback_signing host id service).1
operate host (Operation.draining id) service = (drain_rejections id service).1
operate host (Operation.accepting id did) service = (accept_participant host id did service).1
operate host (Operation.signing id session_id tx) service =
    (start_signing host id session_id tx service).1

-- One step from x to y. A new cohort has a fresh identifier.
pub data ServiceStep (host : Host) (x y : Service) : Type 0 where
  received : (m : Message) → y ≡ (receive host m x).1 → ServiceStep host x y
  operated : (op : Operation) → y ≡ operate host op x → ServiceStep host x y
  opened :
      (id : String) (config : CohortConfig)
      → get id x ≡ none
      → y ≡ (create_cohort host id config x).1
      → ServiceStep host x y
  removed : (id : String) → y ≡ remove_cohort id x → ServiceStep host x y

-- The services that a new one gets to.
pub data Reach (host : Host) : Service → Type 0 where
  here : Reach host []
  next : {x y : Service} → Reach host x → ServiceStep host x y → Reach host y

-- What each operator's method makes of the state of its cohort.
pub record IsOperated (host : Host) (R : CohortState → CohortState → Type 0) (id : String)
    (s : CohortState) : Type 0 where
  pub advertised : R s (advertise_action host id s).1
  pub finalized : R s (finalize_action host id s).1
  pub distributed : R s (distribute_action host id s).1
  pub summed : R s (nonce_action host id s).1
  pub fallen_back : R s (fallback_action host id s).1
  pub drained : R s (record s { rejections = [] })
  pub accepted : (did : String) → R s (accept_action host id did s).1
  pub signed :
      (session_id : String) (tx : SigningTxData) → R s (start_action host id session_id tx s).1

-- What a call makes of the state of cohort id, and of every other state.
pub record Changes (R : CohortState → CohortState → Type 0) (x y : Service) : Type 0 where
  pub kept :
      (j : String) (s : CohortState)
      → get j x ≡ some s
      → (get j y ≡ none) ⊎ ((s' : CohortState) × (get j y ≡ some s') × R s s')
  pub known : (j : String) (s' : CohortState) → get j y ≡ some s' → get j x ≡ none → ⊥

module _ (R : CohortState → CohortState → Type 0) (same : (s : CohortState) → R s s) where
  pub unchanged : (x : Service) → Changes R x x
  unchanged x = record {
    kept = λ j s e. inr (s, e, same s);
    known = λ j s e absent. cc (e, absent);
  }

  pub written :
      (id : String) (s s' : CohortState) (x : Service)
      → get id x ≡ some s
      → R s s'
      → Changes R x (set id s' x)
  written id s s' x there r = record {
    kept = λ j t e. elim (Bool-cases (id == j)) [
      | inl at ↦
          let here' : s ≡ t = same_state id j s t x ((string_eq.beq_iff id j).0 at) there e in
          inr (s', get-set id j s' x ∙ rw at refl, subst (λ u. R u s') here' r)
      | inr away ↦ inr (t, get-set_other id j s' x away ∙ e, same t)
    ];
    known = λ j t e absent. elim (Bool-cases (id == j)) [
      | inl at ↦
          let p : id ≡ j = (string_eq.beq_iff id j).0 at in
          cc (subst (λ i. get i x ≡ some s) p there, absent)
      | inr away ↦ cc (sym (get-set_other id j s' x away) ∙ e, absent)
    ];
  }
    where
      same_state :
          (id j : String) (s t : CohortState) (x : Service)
          → id ≡ j
          → get id x ≡ some s
          → get j x ≡ some t
          → s ≡ t
      same_state id j s t x p a b = let c : some s ≡ some t = sym a ∙ ap (λ i. get i x) p ∙ b in cc

  pub run_found-Changes :
      {A : Type 0} (id : String) (action : Action A) (missing : Result ServiceError A) (x : Service)
      (o : Option CohortState)
      → get id x ≡ o
      → ((s : CohortState) → get id x ≡ some s → R s (action s).1)
      → Changes R x (run_found id action missing x o).1
  unfolding run_found
  run_found-Changes id action missing x none e h = unchanged x
  run_found-Changes id action missing x (some s) e h = written id s (action s).1 x e (h s e)

  pub run_at-Changes :
      {A : Type 0} (id : String) (action : Action A) (x : Service)
      → ((s : CohortState) → get id x ≡ some s → R s (action s).1)
      → Changes R x (run_at id action x).1
  unfolding run_at
  run_at-Changes id action x h =
      run_found-Changes id action (err cohort_not_found) x (get id x) refl h

-- Every step by a call or a message changes each cohort as R says; removing a cohort is the only way
-- that it goes.
module _ (host : Host) (R : CohortState → CohortState → Type 0) (same : (s : CohortState) → R s s)
    (receives : (id : String) (m : Message) (s : CohortState) → R s (receive_action host id m s).1)
    (operates : (id : String) (s : CohortState) → IsOperated host R id s) where
  pub receive-Changes : (m : Message) (x : Service) → Changes R x (receive host m x).1
  unfolding receive receive_named
  receive-Changes m x = named (truthy m.body.cohort_id)
    where
      named : (o : Option String) → Changes R x (receive_named host m x o).1
      named none = unchanged R same x
      named (some id) =
          run_found-Changes R same id (receive_action host id m) (ok tt) x (get id x) refl
            (λ s e. receives id m s)

  drain-Changes : (id : String) (x : Service) → Changes R x (drain_rejections id x).1
  unfolding drain_rejections drain_found
  drain-Changes id x = drained (get id x) refl
    where
      drained : (o : Option CohortState) → get id x ≡ o → Changes R x (drain_found id x o).1
      drained none e = unchanged R same x
      drained (some s) e =
          written R same id s (record s { rejections = [] }) x e ((operates id s).drained)

  pub operate-Changes : (op : Operation) (x : Service) → Changes R x (operate host op x)
  unfolding operate advertise finalize_keygen build_and_distribute send_aggregated_nonce
      start_fallback_signing accept_participant start_signing
  operate-Changes (Operation.advertising id) x =
      run_at-Changes R same id _ x (λ s e. (operates id s).advertised)
  operate-Changes (Operation.finalizing id) x =
      run_at-Changes R same id _ x (λ s e. (operates id s).finalized)
  operate-Changes (Operation.distributing id) x =
      run_at-Changes R same id _ x (λ s e. (operates id s).distributed)
  operate-Changes (Operation.summing id) x =
      run_at-Changes R same id _ x (λ s e. (operates id s).summed)
  operate-Changes (Operation.falling_back id) x =
      run_at-Changes R same id _ x (λ s e. (operates id s).fallen_back)
  operate-Changes (Operation.draining id) x = drain-Changes id x
  operate-Changes (Operation.accepting id did) x =
      run_at-Changes R same id _ x (λ s e. (operates id s).accepted did)
  operate-Changes (Operation.signing id session_id tx) x =
      run_at-Changes R same id _ x (λ s e. (operates id s).signed session_id tx)
