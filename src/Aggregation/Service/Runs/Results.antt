-- ===== src/Aggregation/Service/Runs/Results.antt =====
-- What every run of the service keeps: the order of the phases, and sound cohorts.
use did_btcr2_js.Prelude.{
  Bool-cases, List, Option, Option-cases, [], arith, false, inl, inr, nat_eq, refl, some, string_eq,
  subst, sym, ◌==◌, ◌∙◌, ◌∷◌, ◌≡◌, ◌⊎◌, none,
}
use did_btcr2_js.Aggregation.Service.Sound.Operator.{
  accept_action-Sound, advertise_action-Sound, distribute_action-Sound, fallback_action-Sound,
  finalize_action-Sound, nonce_action-Sound, start_action-Sound,
}
use did_btcr2_js.Aggregation.Service.Runs.{
  Reach, here, next, Changes, IsOperated, ServiceStep, opened, operate-Changes, operated,
  receive-Changes, received, removed,
}
use did_btcr2_js.Aggregation.Service.{CohortConfig, CohortState, Host, Service, remove_cohort}
use did_btcr2_js.Aggregation.Service.Phases.{
  Allowed, accept_action-Moves, advertise_action-Moves, distribute_action-Moves,
  fallback_action-Moves, finalize_action-Moves, nonce_action-Moves, start_action-Moves,
}
use did_btcr2_js.Aggregation.Service.Operator.{
  create_checked, create_cohort, is_over, new_cohort, new_state,
}
use did_btcr2_js.Prelude.Dict.{get, get-delete, get-set, set}
use did_btcr2_js.Aggregation.Service.Phases.Messages.{receive_action-Moves}
use did_btcr2_js.Aggregation.Conditions.{validate_cohort_conditions}
use did_btcr2_js.Aggregation.Conditions.Admissible.{IsAdmissible, IsAtLeast, Optional}
use did_btcr2_js.Aggregation.Service.Sound.{IsSound}
use did_btcr2_js.Common.Number.{Number, below}
use did_btcr2_js.Prelude.Sets.{get-set_other}
use did_btcr2_js.Aggregation.Strategy.{built_in_strategies}
use Prim.Native.String.{String}
use did_btcr2_js.Aggregation.Service.Sound.Messages.{receive_action-Sound}
use did_btcr2_js.Aggregation.Conditions.Equivalence.{validate_cohort_conditions-IsAdmissible}

abbrev pub Follows : CohortState → CohortState → Type 0
Follows s s' = Allowed s.phase s'.phase

-- The state of a cohort after a step of the service, unless the cohort is removed.
abbrev pub After : (CohortState → CohortState → Type 0) → String → CohortState → Service → Type 0
After R j s y = (get j y ≡ none) ⊎ ((s' : CohortState) × (get j y ≡ some s') × R s s')

opened_kept :
    (R : CohortState → CohortState → Type 0)
    → ((s : CohortState) → R s s)
    → (id : String) (new : CohortState) (x : Service) → get id x ≡ none
    → (j : String) (s : CohortState) → get j x ≡ some s
    → After R j s (set id new x)
opened_kept R same id new x absent j s e = elim (Bool-cases (id == j)) [
  | inl at ↦
      let e' : get id x ≡ some s =
        subst (λ i. get i x ≡ some s) (sym ((string_eq.beq_iff id j).0 at)) e in
      cc (absent, e')
  | inr away ↦ inr (s, get-set_other id j new x away ∙ e, same s)
]

create_cohort-After :
    (R : CohortState → CohortState → Type 0)
    → ((s : CohortState) → R s s)
    → (host : Host) (id : String) (config : CohortConfig) (x : Service) (problems : List String)
    → get id x ≡ none
    → (j : String) (s : CohortState) → get j x ≡ some s
    → After R j s (create_checked host id config x problems).1
unfolding create_checked
create_cohort-After R same host id config x [] absent j s e =
    opened_kept R same id (new_state host id config) x absent j s e
create_cohort-After R same host id config x (p ∷ problems) absent j s e = inr (s, e, same s)

removed_kept :
    (R : CohortState → CohortState → Type 0)
    → ((s : CohortState) → R s s)
    → (id : String) (x : Service) (j : String) (s : CohortState) → get j x ≡ some s
    → After R j s (remove_cohort id x)
unfolding remove_cohort
removed_kept R same id x j s e = elim (Bool-cases (id == j)) [
  | inl at ↦ inl (get-delete id j x ∙ rw at refl)
  | inr away ↦ inr (s, get-delete id j x ∙ rw (away, e) refl, same s)
]

phases-IsOperated : (host : Host) (id : String) (s : CohortState) → IsOperated host Follows id s
phases-IsOperated host id s = record {
  advertised = advertise_action-Moves host id s;
  finalized = finalize_action-Moves host id s;
  distributed = distribute_action-Moves host id s;
  summed = nonce_action-Moves host id s;
  fallen_back = fallback_action-Moves host id s;
  drained = inl refl;
  accepted = λ did. accept_action-Moves host id s did;
  signed = λ session_id tx. start_action-Moves host id s session_id tx;
}

-- In every step of the service (a message, a call of the operator, the creation or the removal of a
-- cohort), a cohort is removed, keeps its phase, or makes one transition of the table of the protocol:
-- no phase is skipped or entered again, and nothing leads out of Complete or Failed.
pub step-Follows :
    (host : Host) (x y : Service)
    → ServiceStep host x y
    → (j : String) (s : CohortState) → get j x ≡ some s
    → After Follows j s y
unfolding create_cohort
step-Follows host x y (received m e) j s at = subst (After Follows j s) (sym e) (
    (receive-Changes host Follows (λ s. inl refl) (λ id m s. receive_action-Moves host id m s)
        (phases-IsOperated host) m x).kept
      j s at)
step-Follows host x y (operated op e) j s at = subst (After Follows j s) (sym e) (
    (operate-Changes host Follows (λ s. inl refl) (λ id m s. receive_action-Moves host id m s)
        (phases-IsOperated host) op x).kept
      j s at)
step-Follows host x y (opened id config fresh e) j s at = subst (After Follows j s) (sym e) (
    create_cohort-After Follows (λ s. inl refl) host id config x
      (validate_cohort_conditions config.conditions) fresh j s at)
step-Follows host x y (removed id e) j s at =
    subst (After Follows j s) (sym e) (removed_kept Follows (λ s. inl refl) id x j s at)

abbrev KeepsSound : Host → CohortState → CohortState → Type 0
KeepsSound host s s' = IsSound host s → IsSound host s'

abbrev AllSound : Host → Service → Type 0
AllSound host x = (j : String) (s : CohortState) → get j x ≡ some s → IsSound host s

new_state-IsSound :
    (host : Host) (id : String) (config : CohortConfig)
    → IsAdmissible config.conditions
    → IsSound host (new_state host id config)
unfolding new_state new_cohort
new_state-IsSound host id config h = record {
  core = record {
    admissible = h;
    accepted_members = refl;
    keyed = λ did e. cc;
    within = none_over config.conditions.max_participants h.max_participants;
    updates_from = tt;
    declines_from = tt;
    exclusive = λ did e. cc;
    proven = tt;
  };
  completed = λ e. cc;
}
  where
    none_over : (max : Option Number) → Optional (IsAtLeast 1) max → is_over max 0 ≡ false
    none_over none h = refl
    none_over (some max) (m, em, least) =
        subst (λ x. below x 0 ≡ false) (sym em) (unfold below in ground arith)

module _ (host : Host) (built_in : host.strategies ≡ built_in_strategies host.canonical) where
  sound-IsOperated : (id : String) (s : CohortState) → IsOperated host (KeepsSound host) id s
  sound-IsOperated id s = record {
    advertised = λ h. advertise_action-Sound host id s h;
    finalized = λ h. finalize_action-Sound host id s h;
    distributed = λ h. distribute_action-Sound host id s h built_in;
    summed = λ h. nonce_action-Sound host id s h;
    fallen_back = λ h. fallback_action-Sound host id s h;
    drained = λ h. record { core = h.core; completed = h.completed };
    accepted = λ did h. accept_action-Sound host id s h did;
    signed = λ session_id tx h. start_action-Sound host id s h session_id tx;
  }

  changed_sound :
      (x y : Service) → Changes (KeepsSound host) x y → AllSound host x → AllSound host y
  changed_sound x y c each j s' e = elim (Option-cases (get j x)) [
    | inl absent ↦ absurd (c.known j s' e absent)
    | inr (s, at) ↦ from_old s at (c.kept j s at)
  ]
    where
      same_some : (t u : CohortState) → some t ≡ some u → t ≡ u
      same_some t u p = cc

      from_old :
          (s : CohortState) → get j x ≡ some s → After (KeepsSound host) j s y → IsSound host s'
      from_old s at (inl gone) = cc (gone, e)
      from_old s at (inr (t, there, keeps)) =
          let same : t ≡ s' = same_some t s' (sym there ∙ e) in
          subst (IsSound host) same (keeps (each j s at))

  opened_sound :
      (id : String) (config : CohortConfig) (x : Service) (problems : List String)
      → (problems ≡ [] → IsAdmissible config.conditions)
      → AllSound host x
      → AllSound host (create_checked host id config x problems).1
  unfolding create_checked
  opened_sound id config x (p ∷ problems) h each j s e = each j s e
  opened_sound id config x [] h each j s e = elim (Bool-cases (id == j)) [
    | inl at ↦
        let q : some (new_state host id config) ≡ some s =
          sym (get-set id j (new_state host id config) x ∙ rw at refl) ∙ e in
        let same : new_state host id config ≡ s = cc in
        subst (IsSound host) same (new_state-IsSound host id config (h refl))
    | inr away ↦ each j s (sym (get-set_other id j (new_state host id config) x away) ∙ e)
  ]

  removed_sound : (id : String) (x : Service) → AllSound host x → AllSound host (remove_cohort id x)
  unfolding remove_cohort
  removed_sound id x each j s e = elim (Bool-cases (id == j)) [
    | inl at ↦ let q : none ≡ some s = sym (get-delete id j x ∙ rw at refl) ∙ e in cc
    | inr away ↦ each j s (sym (get-delete id j x ∙ rw away refl) ∙ e)
  ]

  step-AllSound : (x y : Service) → ServiceStep host x y → AllSound host x → AllSound host y
  unfolding create_cohort
  step-AllSound x y (received m e) each = subst (AllSound host) (sym e) (
      changed_sound x _
        (receive-Changes host (KeepsSound host) (λ s h. h)
          (λ id m s h. receive_action-Sound host id m s h) sound-IsOperated m x)
        each)
  step-AllSound x y (operated op e) each = subst (AllSound host) (sym e) (
      changed_sound x _
        (operate-Changes host (KeepsSound host) (λ s h. h)
          (λ id m s h. receive_action-Sound host id m s h) sound-IsOperated op x)
        each)
  step-AllSound x y (opened id config fresh e) each = subst (AllSound host) (sym e) (
      opened_sound id config x (validate_cohort_conditions config.conditions)
        (λ p. (validate_cohort_conditions-IsAdmissible config.conditions).0 p) each)
  step-AllSound x y (removed id e) each = subst (AllSound host) (sym e) (removed_sound id x each)

  -- In every run of the service that starts with no cohort, with the built-in strategies, each cohort
  -- is sound: its conditions are admissible; the accepted participants are the cohort's members and
  -- number at most the advertised maximum; the key of each is the key of its opt-in; updates and
  -- declines come from members, and no member has both; every stored update passed the proof check
  -- with its sender's key; and a complete cohort has a result.
  pub reach-IsSound :
      (x : Service)
      → Reach host x
      → (j : String) (s : CohortState) → get j x ≡ some s
      → IsSound host s
  unfolding get
  reach-IsSound x here j s e = cc
  reach-IsSound y (next {x = x} r step) j s e =
      step-AllSound x y step (λ i t at. reach-IsSound x r i t at) j s e
