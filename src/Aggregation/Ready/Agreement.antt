-- ===== src/Aggregation/Ready/Agreement.antt =====
-- The message by which the service ends keygen, and the participant that takes it.
use did_btcr2_js.Prelude.{
  All, beq_ne, [], beq_refl, from_option, refl, ◌∷◌, ap, map, nat_eq, some, string_eq, true, ◌∙◌,
  ◌≢◌, List, subst, sym, ◌≡◌,
}
use did_btcr2_js.Aggregation.Cohort.{Cohort, CohortError}
use did_btcr2_js.Aggregation.Cohort.Address.{
  check_address, set_cohort_keys, validate_membership, beacon_payment, compute_beacon_address,
}
use did_btcr2_js.Smt.Hash.{Bytes}
use did_btcr2_js.Prelude.Result.{Holds, Result, err, ok}
use Prim.Native.String.{String}
use did_btcr2_js.Aggregation.Participant.{cohort_ready, Client, MemberState, is_at, opted_in}
use did_btcr2_js.Prelude.Dict.{includes}
use did_btcr2_js.Aggregation.Participant.Messages.{
  store_membership, check_membership, handle_cohort_ready,
}
use did_btcr2_js.Aggregation.Messages.{create_cohort_ready_message, truthy, Message}
use did_btcr2_js.Aggregation.Service.{Host, ServiceError, CohortState}
use did_btcr2_js.Prelude.Step.{need_ends, when-true, when_some-eq}
use did_btcr2_js.Aggregation.Service.Operator.{finalize_action, store_keygen}
use did_btcr2_js.Aggregation.Ready.Address.{
  SameTerms, TaprootLaws, beacon_payment-Holds, compute_beacon_address-Gives, store_address_there,
}

-- A participant that has opted in, with a cohort of the terms of the service's cohort.
pub record IsMember (client : Client) (k k' : Cohort) (x : MemberState) : Type 0 where
  pub waits : is_at x.phase opted_in ≡ true
  pub holds : x.cohort ≡ some k'
  pub terms : SameTerms k (record k' { cohort_keys = k.cohort_keys })
  pub listed :
      includes (client.bytes_to_hex client.public_key) (map client.bytes_to_hex k.cohort_keys)
      ≡ true
  pub reads : All (λ b. client.hex_to_bytes (client.bytes_to_hex b) ≡ some b) k.cohort_keys

-- The participant takes the message and comes to the address.
abbrev pub Accepts : Client → MemberState → String → Message → Type 0
Accepts client x address m =
    (k : Cohort) × (handle_cohort_ready client m x
      ≡ (ok tt, record x { cohort = some k; phase = cohort_ready }))
    × (k.beacon_address ≡ address)

read_back :
    (client : Client) (keys : List Bytes)
    → All (λ b. client.hex_to_bytes (client.bytes_to_hex b) ≡ some b) keys
    → map (λ text. from_option [] (client.hex_to_bytes text)) (map client.bytes_to_hex keys) ≡ keys
read_back client [] h = refl
read_back client (b ∷ keys) (h, hs) = rw (h, read_back client keys hs) refl

module _ (client : Client) (s : CohortState) (k' : Cohort) (x : MemberState)
    (member : IsMember client s.cohort k' x) where
  abbrev own_cohort : Cohort
  own_cohort = record k' { cohort_keys = s.cohort.cohort_keys }

  check_membership-eq :
      client.spender.taproot.sort_keys s.cohort.cohort_keys ≡ s.cohort.cohort_keys
      → (address : String) (k : Cohort)
      → compute_beacon_address client.spender.taproot own_cohort ≡ (ok address, k)
      → check_membership client k' address s.cohort.cohort_keys ≡ (ok tt, k)
  unfolding check_membership validate_membership set_cohort_keys check_address
  check_membership-eq sorted address k h =
      rw
        (
          read_back client s.cohort.cohort_keys member.reads,
          sorted,
          h,
          member.listed,
          beq_refl address,
        )
        refl

  ready-Accepts :
      client.spender.taproot.sort_keys s.cohort.cohort_keys ≡ s.cohort.cohort_keys
      → (service_did did id address : String) (k1 : Cohort)
      → compute_beacon_address client.spender.taproot s.cohort ≡ (ok address, k1)
      → address ≢ ""
      → Accepts client x k1.beacon_address
          (create_cohort_ready_message service_did did id address k1.cohort_keys)
  unfolding handle_cohort_ready create_cohort_ready_message store_membership
  ready-Accepts sorted service_did did id address k1 h there =
      let ((k, e, at), at1, keys) =
        compute_beacon_address-Gives client.spender.taproot s.cohort own_cohort address k1
          member.terms h in
      let named : truthy (some address) ≡ some address = rw (beq_ne address "" there) refl in
      (
        k,
        when_some-eq _ x k' member.holds
            ∙ when-true _ x member.waits
            ∙ when_some-eq _ x address named
            ∙ when_some-eq _ x k1.cohort_keys refl
            ∙ ap (λ r. store_membership r x)
                (ap (check_membership client k' address) keys
                  ∙ check_membership-eq sorted address k e),
        at ∙ sym at1,
      )

abbrev Ends : Client → MemberState → Result ServiceError (List Message) × CohortState → Type 0
Ends client x r = Holds (λ ms. All (Accepts client x r.1.cohort.beacon_address) ms) r.0

All_map :
    {A B : Type 0} (P : B → Type 0) (f : A → B) (xs : List A)
    → ((a : A) → P (f a))
    → All P (map f xs)
All_map P f [] h = tt
All_map P f (a ∷ xs) h = (h a, All_map P f xs h)

store_keygen-Ends :
    (host : Host) (client : Client) (id : String) (s : CohortState) (k' : Cohort) (x : MemberState)
    → TaprootLaws client.spender.taproot
    → client.spender.taproot.sort_keys s.cohort.cohort_keys ≡ s.cohort.cohort_keys
    → IsMember client s.cohort k' x
    → (o : Result CohortError String × Cohort)
    → compute_beacon_address client.spender.taproot s.cohort ≡ o
    → Ends client x (store_keygen host id o s)
unfolding store_keygen
store_keygen-Ends host client id s k' x laws sorted member (err e, k1) h = tt
store_keygen-Ends host client id s k' x laws sorted member (ok address, k1) h =
    All_map _ _ k1.participants (λ did.
      ready-Accepts client s k' x member sorted host.did did id address k1 h (
        unfold compute_beacon_address in
        store_address_there client.spender.taproot s.cohort
          (beacon_payment client.spender.taproot s.cohort) address k1
          (beacon_payment-Holds client.spender.taproot laws s.cohort) h))

-- Every message that finalizeKeygen returns is accepted by a participant that has opted in with the
-- cohort's terms and whose key is among the keys: it comes to CohortReady, with the very beacon address
-- of the service; if both use one Taproot library with sorted keys and addresses that are not empty.
pub finalize_action-Accepts :
    (host : Host) (client : Client) (id : String) (s : CohortState) (k' : Cohort) (x : MemberState)
    → host.spender.taproot ≡ client.spender.taproot
    → TaprootLaws client.spender.taproot
    → client.spender.taproot.sort_keys s.cohort.cohort_keys ≡ s.cohort.cohort_keys
    → IsMember client s.cohort k' x
    → Holds
        (λ ms. All (Accepts client x (finalize_action host id s).1.cohort.beacon_address) ms)
        (finalize_action host id s).0
unfolding finalize_action
finalize_action-Accepts host client id s k' x shared laws sorted member =
    need_ends (Ends client x) _ _ _ s tt (λ _. need_ends (Ends client x) _ _ _ s tt (λ _.
      need_ends (Ends client x) _ _ _ s tt (λ _.
        subst (λ t. (Ends client x) (store_keygen host id (compute_beacon_address t s.cohort) s))
          (sym shared)
          (store_keygen-Ends host client id s k' x laws sorted member
            (compute_beacon_address client.spender.taproot s.cohort) refl))))
