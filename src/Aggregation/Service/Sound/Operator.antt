-- ===== src/Aggregation/Service/Sound/Operator.antt =====
-- The operator's methods keep a cohort sound.
use did_btcr2_js.Prelude.{
  [], map, ◌++◌, ◌∷◌, Bool-cases, Option, arith, from_option, inl, inr, nat_eq, refl, some,
  string_eq, subst, ◌==◌, ◌≡◌,
}
use did_btcr2_js.Aggregation.Service.Signing.{
  SigningTxData, begin_signing, fallback_action, nonce_action, request_fallback, start_action,
  store_nonce_sum,
}
use did_btcr2_js.Aggregation.Service.Sound.{
  IsSound, SameResponses, compute_beacon_address-SameResponses, core_same,
}
use did_btcr2_js.Prelude.Result.{Holds, Holds->>=, Holds-eq, Result, err, guard, ok}
use did_btcr2_js.Prelude.Dict.{Dict, get}
use did_btcr2_js.Aggregation.Session.{new_session}
use did_btcr2_js.Aggregation.Strategy.{
  Canonical, Proofs, Strategy, built_in_strategies, cas_strategy, get_beacon_strategy, smt_strategy,
}
use did_btcr2_js.Aggregation.Service.Operator.{
  accept_action, advertise_action, distribute_action, finalize_action, start_advert, store_data,
  store_keygen, store_participant,
}
use did_btcr2_js.Aggregation.Cohort.{
  build_smt_tree, collect_proofs, lift_tree, slot, Cohort, CohortError, build_cas_announcement,
  has_all_responses, incomplete_responses,
}
use did_btcr2_js.Aggregation.Service.{CohortState, Host, ServiceError, signing_started}
use did_btcr2_js.Prelude.Step.{call_ends, need_ends, need_some_ends}
use did_btcr2_js.Common.Json.{Json}
use did_btcr2_js.Smt.Hash.{Crypto, Bytes}
use did_btcr2_js.Aggregation.Service.Sound.Changes.{accept-core}
use Prim.Native.String.{String}
use did_btcr2_js.Aggregation.Cohort.Address.{compute_beacon_address}
use did_btcr2_js.Smt.Tree.{add_entries, new_tree, root_hash}

abbrev pub Sound : {A : Type 0} → Host → Result ServiceError A × CohortState → Type 0
Sound host r = IsSound host r.1

build_cas_announcement-SameResponses :
    (hash_text : Json → String) (hash_announcement : Dict String String → Bytes) (k : Cohort)
    → Holds (λ r. SameResponses k r.0) (build_cas_announcement hash_text hash_announcement k)
unfolding build_cas_announcement
build_cas_announcement-SameResponses hash_text hash_announcement k =
    Holds->>= {B = Cohort × Dict String String} (λ r. SameResponses k r.0)
      (guard (has_all_responses k) incomplete_responses) _ (λ _ e. (refl, refl, refl, refl))

build_smt_tree-SameResponses :
    (c : Crypto String) (canonical_bytes : Json → Bytes) (nonce_of : String → Bytes) (k : Cohort)
    → Holds (λ r. SameResponses k r.0) (build_smt_tree c canonical_bytes nonce_of k)
unfolding build_smt_tree
build_smt_tree-SameResponses c canonical_bytes nonce_of k =
    Holds->>= {B = Cohort × Proofs} (λ r. SameResponses k r.0)
      (guard (has_all_responses k) incomplete_responses) _
      (λ _ e1.
        Holds->>= {B = Cohort × Proofs} (λ r. SameResponses k r.0)
          (lift_tree
            (add_entries c new_tree (map (slot c canonical_bytes nonce_of k) k.participants)).1)
          _
          (λ _ e2.
            Holds->>= {B = Cohort × Proofs} (λ r. SameResponses k r.0) (lift_tree (root_hash _)) _
              (λ root e3.
                Holds->>= {B = Cohort × Proofs} (λ r. SameResponses k r.0)
                  (lift_tree (collect_proofs c _ k.participants [])) _
                  (λ proofs e4. (refl, refl, refl, refl)))))

pub data_same :
    (c : Canonical) (type_name : String) (strategy : Strategy)
    → get_beacon_strategy type_name (built_in_strategies c) ≡ some strategy
    → (k : Cohort) (p : Proofs)
    → Holds (λ r. SameResponses k r.0) (strategy.build_aggregated_data k p)
unfolding get_beacon_strategy built_in_strategies get cas_strategy smt_strategy
data_same c type_name strategy e k p = elim (Bool-cases ("CASBeacon" == type_name)) [
  | inl cas ↦
      subst
        (λ (x : Option Strategy).
          Holds (λ r. SameResponses k r.0) ((from_option strategy x).build_aggregated_data k p))
        (rw cas at e)
        (Holds->>= {B = Cohort × Proofs} (λ r. SameResponses k r.0)
          (build_cas_announcement c.canonical_hash c.hash_announcement k) _
          (λ r e1.
            Holds-eq {A = Cohort × Dict String String} (λ x. SameResponses k x.0) _ r
              (build_cas_announcement-SameResponses c.canonical_hash c.hash_announcement k) e1))
  | inr other_type ↦ elim (Bool-cases ("SMTBeacon" == type_name)) [
    | inl tree ↦
        subst
          (λ (x : Option Strategy).
            Holds (λ r. SameResponses k r.0) ((from_option strategy x).build_aggregated_data k p))
          (rw (other_type, tree) at e)
          (build_smt_tree-SameResponses c.crypto c.canonical_bytes c.nonce_of k)
    | inr neither ↦ cc (rw (other_type, neither) at e)
  ]
]

module _ (host : Host) (id : String) (s : CohortState) (sound : IsSound host s) where
  pub advertise_action-Sound : Sound host (advertise_action host id s)
  unfolding advertise_action start_advert
  advertise_action-Sound =
      need_ends (Sound host) _ _ _ s sound
        (λ e1. record { core = sound.core; completed = λ h. cc h })

  pub accept_action-Sound : (did : String) → Sound host (accept_action host id did s)
  unfolding accept_action store_participant
  accept_action-Sound did = need_some_ends (Sound host) _ _ _ s sound (λ opt_in found.
      need_ends (Sound host) _ _ _ s sound (λ e2. need_ends (Sound host) _ _ _ s sound (λ e3.
        record {
          core =
              accept-core host s sound.core did opt_in
                (host.spender.taproot.sort_keys
                  (s.cohort.cohort_keys ++ opt_in.participant_pk ∷ []))
                found (ground (arith, e2)) (ground (arith, e3));
          completed = sound.completed;
        })))

  store_keygen-Sound :
      (r : Result CohortError String × Cohort)
      → SameResponses s.cohort r.1
      → Sound host (store_keygen host id r s)
  unfolding store_keygen
  store_keygen-Sound (err e, k) same = record {
    core = core_same host s s.cohort k same sound.core;
    completed = sound.completed;
  }
  store_keygen-Sound (ok address, k) same = record {
    core = core_same host s s.cohort k same sound.core;
    completed = λ h. cc h;
  }

  pub finalize_action-Sound : Sound host (finalize_action host id s)
  unfolding finalize_action
  finalize_action-Sound = need_ends (Sound host) _ _ _ s sound (λ e1.
      need_ends (Sound host) _ _ _ s sound (λ e2. need_ends (Sound host) _ _ _ s sound (λ e3.
        store_keygen-Sound (compute_beacon_address host.spender.taproot s.cohort)
          (compute_beacon_address-SameResponses host.spender.taproot s.cohort))))

  pub distribute_action-Sound :
      host.strategies ≡ built_in_strategies host.canonical
      → Sound host (distribute_action host id s)
  unfolding distribute_action store_data
  distribute_action-Sound built_in = need_ends (Sound host) _ _ _ s sound (λ e1.
      need_some_ends (Sound host) _ _ _ s sound (λ strategy e2.
        call_ends (Sound host) _ _ _ s (λ e. sound)
          (λ r e3. record {
            core =
                core_same host s s.cohort r.0
                  (Holds-eq {A = Cohort × Proofs} (λ x. SameResponses s.cohort x.0) _ r
                    (data_same host.canonical s.config.conditions.beacon_type strategy
                      (subst
                        (λ m. get_beacon_strategy s.config.conditions.beacon_type m ≡ some strategy)
                        built_in e2)
                      s.cohort s.smt_proofs)
                    e3)
                  sound.core;
            completed = λ h. cc h;
          })))

  pub start_action-Sound :
      (session_id : String) (tx : SigningTxData) → Sound host (start_action host id session_id tx s)
  unfolding start_action begin_signing
  start_action-Sound session_id tx = need_ends (Sound host) _ _ _ s sound (λ e1.
      let started : IsSound host (record s {
        signing_session =
            some (new_session session_id s.cohort tx.tx tx.prev_out_scripts tx.prev_out_values);
        phase = signing_started;
      }) =
        record { core = sound.core; completed = λ h. cc h } in
      need_some_ends (Sound host) _ _ _ _ started (λ script e2. started))

  pub nonce_action-Sound : Sound host (nonce_action host id s)
  unfolding nonce_action store_nonce_sum
  nonce_action-Sound = need_ends (Sound host) _ _ _ s sound (λ e1.
      need_some_ends (Sound host) _ _ _ s sound (λ session e2.
        call_ends (Sound host) _ _ _ s (λ e. sound)
          (λ r e3. record { core = sound.core; completed = λ h. cc h })))

  pub fallback_action-Sound : Sound host (fallback_action host id s)
  unfolding fallback_action request_fallback
  fallback_action-Sound = need_some_ends (Sound host) _ _ _ s sound (λ session e1.
      need_ends (Sound host) _ _ _ s sound (λ e2.
        need_some_ends (Sound host) _ _ _ s sound (λ prev_out e3.
          call_ends (Sound host) _ _ _ s (λ e. sound)
            (λ leaf e4. record { core = sound.core; completed = λ h. cc h }))))
