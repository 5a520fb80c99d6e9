-- ===== src/Aggregation/Ready/Address.antt =====
-- The beacon address of two cohorts with the same terms.
use did_btcr2_js.Prelude.{
  length, nat_beq, not, ap, nat_eq, some, string_eq, ◌∙◌, ◌≢◌, List, Option, subst, sym, ◌≡◌, none,
}
use did_btcr2_js.Aggregation.Cohort.{
  no_cohort_keys, no_recovery_params, taproot_error, beacon_address_error, Cohort, CohortError,
}
use did_btcr2_js.Aggregation.Cohort.Address.{
  beacon_payment, compute_beacon_address, recovery_params, store_address, store_payment,
}
use did_btcr2_js.Aggregation.Recovery.{
  build_recovery_leaves, resolve_fallback_threshold, Payment, Taproot,
}
use did_btcr2_js.Common.Number.{Number}
use did_btcr2_js.Smt.Hash.{Bytes}
use did_btcr2_js.Prelude.Result.{Holds, Holds->>=, guard, or_throw, or_throw-eq-ok, Result, err, ok}
use Prim.Native.String.{String}

-- The fields from which the beacon address is computed.
pub record SameTerms (k k' : Cohort) : Type 0 where
  pub same_keys : k.cohort_keys ≡ k'.cohort_keys
  pub same_recovery_key : k.recovery_key ≡ k'.recovery_key
  pub same_sequence : k.recovery_sequence ≡ k'.recovery_sequence
  pub same_model : k.funding_model ≡ k'.funding_model
  pub same_threshold : k.fallback_threshold ≡ k'.fallback_threshold
  pub same_network : k.network ≡ k'.network

module _ (t : Taproot) where
  abbrev payment_by :
      Cohort
      → List Bytes
      → Option Bytes
      → Option Number
      → String
      → Option Number
      → String
      → Result CohortError (Bytes × Payment)
  payment_by k keys key sequence model threshold network = beacon_payment t (record k {
    cohort_keys = keys;
    recovery_key = key;
    recovery_sequence = sequence;
    funding_model = model;
    fallback_threshold = threshold;
    network = network;
  })

  beacon_payment-SameTerms :
      (k k' : Cohort) → SameTerms k k' → beacon_payment t k' ≡ beacon_payment t k
  unfolding beacon_payment recovery_params
  beacon_payment-SameTerms k k' same =
      let e1 = same.same_keys in
      let e2 = same.same_recovery_key in
      let e3 = same.same_sequence in
      let e4 = same.same_model in
      let e5 = same.same_threshold in
      let e6 = same.same_network in
      let both : payment_by k k'.cohort_keys k'.recovery_key k'.recovery_sequence k'.funding_model
            k'.fallback_threshold k'.network
          ≡ payment_by k k.cohort_keys k.recovery_key k.recovery_sequence k.funding_model
              k.fallback_threshold k.network =
        cc in
      both

  abbrev pub Gives : String → Result CohortError String × Cohort → Type 0
  Gives address o = (k : Cohort) × (o ≡ (ok address, k)) × (k.beacon_address ≡ address)

  abbrev stored : Option String → Cohort → Result CohortError String × Cohort
  stored o k = elim o [
    | none ↦ (err beacon_address_error, k)
    | some address ↦ (ok address, record k { beacon_address = address })
  ]

  stored-Gives :
      (k k' : Cohort) (o : Option String) (address : String) (k1 : Cohort)
      → stored o k ≡ (ok address, k1)
      → Gives address (stored o k')
        × (k1.beacon_address ≡ address)
        × (k1.cohort_keys ≡ k.cohort_keys)
  stored-Gives k k' none address k1 h = cc
  stored-Gives k k' (some x) address k1 h =
      let p : ok x ≡ ok address = ap (λ r. r.0) h in
      let q : x ≡ address = cc in
      (
        (record k' { beacon_address = x }, ap (λ a. (ok a, record k' { beacon_address = x })) q, q),
        sym (ap (λ r. r.1.beacon_address) h) ∙ q,
        sym (ap (λ r. r.1.cohort_keys) h),
      )

  store_address-Gives :
      (k k' : Cohort) (r : Result CohortError (Bytes × Payment)) (address : String) (k1 : Cohort)
      → store_address t k r ≡ (ok address, k1)
      → Gives address (store_address t k' r)
        × (k1.beacon_address ≡ address)
        × (k1.cohort_keys ≡ k.cohort_keys)
  unfolding store_address store_payment
  store_address-Gives k k' (err e) address k1 h = cc
  store_address-Gives k k' (ok (key, payment)) address k1 h =
      stored-Gives _ _ payment.address address k1 h

  pub compute_beacon_address-Gives :
      (k k' : Cohort) (address : String) (k1 : Cohort)
      → SameTerms k k'
      → compute_beacon_address t k ≡ (ok address, k1)
      → Gives address (compute_beacon_address t k')
        × (k1.beacon_address ≡ address)
        × (k1.cohort_keys ≡ k.cohort_keys)
  unfolding compute_beacon_address
  compute_beacon_address-Gives k k' address k1 same h =
      subst
        (λ r.
          Gives address (store_address t k' r)
          × (k1.beacon_address ≡ address)
          × (k1.cohort_keys ≡ k.cohort_keys))
        (sym (beacon_payment-SameTerms k k' same))
        (store_address-Gives k k' (beacon_payment t k) address k1 h)

-- What keygen relies on of the outputs: no address is empty.
pub record TaprootLaws (t : Taproot) : Type 0 where
  pub address_there :
      (key : Bytes) (leaves : List Bytes) (network : String) (p : Payment)
      → t.p2tr key leaves network ≡ some p
      → p.address ≢ some ""

pub beacon_payment-Holds :
    (t : Taproot)
    → TaprootLaws t
    → (k : Cohort) → Holds (λ r. r.1.address ≢ some "") (beacon_payment t k)
unfolding beacon_payment
beacon_payment-Holds t laws k =
    Holds->>= _ (guard (not (nat_beq (length k.cohort_keys) 0)) no_cohort_keys) _ (λ _ _.
      Holds->>= _ (or_throw (recovery_params k) no_recovery_params) _ (λ params _.
        Holds->>= _ (or_throw (t.key_aggregate k.cohort_keys) taproot_error) _ (λ key _.
          Holds->>= _
            (build_recovery_leaves t k.funding_model params.0 params.1 k.cohort_keys
              (resolve_fallback_threshold k.fallback_threshold (length k.cohort_keys)))
            _
            (λ leaves _.
              Holds->>= _ (or_throw (t.p2tr key leaves k.network) taproot_error) _ (λ payment e.
                laws.address_there key leaves k.network payment
                  (or_throw-eq-ok _ taproot_error payment e))))))

module _ (t : Taproot) where
  stored_there :
      (k : Cohort) (o : Option String) (address : String) (k1 : Cohort)
      → o ≢ some ""
      → stored t o k ≡ (ok address, k1)
      → address ≢ ""
  stored_there k none address k1 there h = cc
  stored_there k (some a) address k1 there h =
      let p : ok a ≡ ok address = ap (λ r. r.0) h in
      let q : a ≡ address = cc in λ empty. there (ap some (q ∙ empty))

  pub store_address_there :
      (k : Cohort) (r : Result CohortError (Bytes × Payment)) (address : String) (k1 : Cohort)
      → Holds (λ r. r.1.address ≢ some "") r
      → store_address t k r ≡ (ok address, k1)
      → address ≢ ""
  unfolding store_address store_payment
  store_address_there k (err e) address k1 there h = cc
  store_address_there k (ok (key, payment)) address k1 there h =
      stored_there _ payment.address address k1 there h
