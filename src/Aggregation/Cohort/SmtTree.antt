-- ===== src/Aggregation/Cohort/SmtTree.antt =====
-- `buildSMTTree` of packages/aggregation/src/core/cohort.ts on the tree of packages/smt.
use did_btcr2_js.Prelude.Dict.{All-get}
use did_btcr2_js.Prelude.Dict.{get-set, Dict, get, set}
use did_btcr2_js.Smt.Hash.{Bytes, CryptoLaws, IsHash, Crypto}
use did_btcr2_js.Prelude.{
  ◌≢◌, Option-cases, subst, sym, map, true, ℕ, In, List, [], nat_eq, refl, some, string_eq, ◌∷◌,
  ◌≡◌,
}
use did_btcr2_js.Aggregation.Cohort.{
  build_smt_tree, has_all_responses, Cohort, slot, collect_proofs,
}
use did_btcr2_js.Smt.Tree.{
  leaves_of, finalize, root_hash, TreeEntry, add_entries, leaf_hash, new_tree, Tree, proof,
}
use did_btcr2_js.Prelude.Result.{ok}
use did_btcr2_js.Smt.Proof.{did_to_index, verify_serialized_proof, SerializedSmtProof}
use Prim.Native.String.{String}
use did_btcr2_js.Prelude.{All, In, Bool-cases, inl, inr, ap, arith, some, refl, ◌∙◌, ◌==◌}
use text.Mathlib.TextEquality.{eq_iff}
use text.Mathlib.TextPositions.{eq_refl}
use did_btcr2_js.Smt.Tree.Added.{add_entries-IsIndexed, IsIndexed, add_entries-All}
use did_btcr2_js.Smt.Tree.Invariant.{IsFiled, add_entries-IsFiled, new_tree-IsFiled}
use did_btcr2_js.Common.Json.{Json}
use did_btcr2_js.Smt.Tree.Proofs.{proof-finalize, IsProved}
use did_btcr2_js.Smt.ZeroHash.{zero_hash_root}
use did_btcr2_js.Smt.Tree.Fresh.{DistinctIndexes, add_entries-ok}

module _ {Text : Type 0} (c : Crypto Text) where
  get-collect_proofs :
      (t : Tree) (dids : List String) (m : Dict String (SerializedSmtProof Text))
      → All (λ did. (s : SerializedSmtProof Text) × (proof c t did ≡ ok s)) dids
      → (n : Dict String (SerializedSmtProof Text)) × (collect_proofs c t dids m ≡ ok n)
        × ((did : String)
            → (In did dids
                → (s : SerializedSmtProof Text) × (proof c t did ≡ ok s) × (get did n ≡ some s))
              × ((s : SerializedSmtProof Text)
                  → proof c t did ≡ ok s
                  → get did m ≡ some s
                  → get did n ≡ some s))
  unfolding collect_proofs
  get-collect_proofs t [] m a = (m, refl, λ did. (λ i. absurd i, λ s e g. g))
  get-collect_proofs t (d ∷ dids) m a =
      let (s, e) = a.0 in
      let (n, made, later) = get-collect_proofs t dids (set d s m) a.1 in
      let keep =
        λ (did : String) (s' : SerializedSmtProof Text) (e' : proof c t did ≡ ok s')
            (g : get did m ≡ some s').
          (later did).1 s' e' (stays did s s' m e e' g) in
      (n, rw e made, λ did. (λ i. member did s e n later i, keep did))
    where
      stays :
          (did : String) (s s' : SerializedSmtProof Text)
          (q : Dict String (SerializedSmtProof Text))
          → proof c t d ≡ ok s
          → proof c t did ≡ ok s'
          → get did q ≡ some s'
          → get did (set d s q) ≡ some s'
      stays did s s' q e e' g = elim (Bool-cases (d == did)) [
        | inl x ↦
            let same : s ≡ s' = ground (arith, e, e', ap (proof c t) ((eq_iff d did).0 x)) in
            get-set d did s q ∙ rw x (ap some same)
        | inr x ↦ get-set d did s q ∙ rw x g
      ]

      member :
          (did : String) (s : SerializedSmtProof Text)
          → proof c t d ≡ ok s
          → (n : Dict String (SerializedSmtProof Text))
          → ((x : String)
              → (In x dids
                  → (y : SerializedSmtProof Text) × (proof c t x ≡ ok y) × (get x n ≡ some y))
                × ((y : SerializedSmtProof Text)
                    → proof c t x ≡ ok y
                    → get x (set d s m) ≡ some y
                    → get x n ≡ some y))
          → In did (d ∷ dids)
          → (y : SerializedSmtProof Text) × (proof c t did ≡ ok y) × (get did n ≡ some y)
      member did s e n later (inl x) =
          rw x (s, e, (later d).1 s e (get-set d d s m ∙ rw (eq_refl d) refl))
      member did s e n later (inr i) = (later did).0 i

-- What a participant is served with: a proof among those returned that verifies for its own index and
-- the leaf of its own slot.
pub record IsServed {Text : Type 0} (c : Crypto Text) (slot_of : String → TreeEntry)
    (proofs : Dict String (SerializedSmtProof Text)) (did : String) : Type 0 where
  pub served : SerializedSmtProof Text
  pub index : ℕ
  pub given : get did proofs ≡ some served
  pub indexed : did_to_index c did ≡ ok index
  pub verifies : verify_serialized_proof c served index (leaf_hash c (slot_of did)) ≡ ok true

module _ {Text : Type 0} (c : Crypto Text) (laws : CryptoLaws c) (canonical_bytes : Json → Bytes)
    (nonce_of : String → Bytes) (nonces : (did : String) → IsHash (nonce_of did)) (k : Cohort) where
  abbrev slots : List TreeEntry
  slots = map (slot c canonical_bytes nonce_of k) k.participants

  abbrev tree_of : Tree
  tree_of = (add_entries c new_tree slots).0

  slots-All :
      (P : TreeEntry → Type 0)
      → ((did : String) → P (slot c canonical_bytes nonce_of k did))
      → (dids : List String) → All P (map (slot c canonical_bytes nonce_of k) dids)
  slots-All P h [] = tt
  slots-All P h (d ∷ ds) = (h d, slots-All P h ds)

  tree_of-IsFiled : IsFiled c tree_of
  tree_of-IsFiled =
      (add_entries-IsFiled c new_tree slots (slots-All (λ e. IsHash e.nonce) nonces k.participants)
        (new_tree-IsFiled c).0).0

  -- Every filed entry is the slot of its DID.
  tree_of-slots : All (λ x. x.1 ≡ slot c canonical_bytes nonce_of k x.1.did) tree_of.entries
  tree_of-slots =
      add_entries-All c (λ e. e ≡ slot c canonical_bytes nonce_of k e.did) new_tree slots
        (slots-All (λ e. e ≡ slot c canonical_bytes nonce_of k e.did) (λ did. refl) k.participants)
        (unfold new_tree in tt)

  participant-IsProved :
      (did : String) → IsIndexed c tree_of did → (i : ℕ) × IsProved c tree_of did i
  participant-IsProved did h = elim (Option-cases (get did tree_of.index_by_did)) [
    | inl e ↦ absurd (ground (arith, h, e))
    | inr (i, e) ↦ (i, proof-finalize c laws tree_of did i tree_of-IsFiled e)
  ]

  participants-IsIndexed :
      (t : Tree) (dids : List String)
      → All (λ e. IsIndexed c t e.did) (map (slot c canonical_bytes nonce_of k) dids)
      → All (IsIndexed c t) dids
  participants-IsIndexed t [] h = tt
  participants-IsIndexed t (d ∷ ds) h = (h.0, participants-IsIndexed t ds h.1)

  participants-proof :
      (dids : List String)
      → All (IsIndexed c tree_of) dids
      → All (λ did. (s : SerializedSmtProof Text) × (proof c (finalize c tree_of) did ≡ ok s)) dids
  participants-proof [] h = tt
  participants-proof (d ∷ ds) h =
      let (i, p) = participant-IsProved d h.0 in
      ((p.serialized, p.proved), participants-proof ds h.1)

  slot-IsServed :
      (did : String) (i : ℕ) (proofs : Dict String (SerializedSmtProof Text))
      (s : SerializedSmtProof Text)
      → IsProved c tree_of did i
      → proof c (finalize c tree_of) did ≡ ok s
      → get did proofs ≡ some s
      → IsServed c (slot c canonical_bytes nonce_of k) proofs did
  slot-IsServed did i proofs s p e g =
      let own =
        All-get (λ (x : ℕ × TreeEntry). x.1 ≡ slot c canonical_bytes nonce_of k x.1.did) i p.entry
          tree_of.entries tree_of-slots p.filed_under in
      let entry = own ∙ ap (slot c canonical_bytes nonce_of k) p.own in
      let same : p.serialized ≡ s = ground (arith, e, p.proved) in
      record {
        served = p.serialized;
        index = i;
        given = g ∙ ap some (sym same);
        indexed = p.indexed;
        verifies =
            subst (λ x. verify_serialized_proof c p.serialized i (leaf_hash c x) ≡ ok true) entry
              p.verifies;
      }

  All-IsServed :
      (proofs : Dict String (SerializedSmtProof Text)) (dids : List String)
      → All (IsIndexed c tree_of) dids
      → ((did : String)
          → In did dids
          → (s : SerializedSmtProof Text) × (proof c (finalize c tree_of) did ≡ ok s)
            × (get did proofs ≡ some s))
      → All (IsServed c (slot c canonical_bytes nonce_of k) proofs) dids
  All-IsServed proofs [] h g = tt
  All-IsServed proofs (d ∷ ds) h g =
      let (i, p) = participant-IsProved d h.0 in
      let (s, e, there) = g d (inl refl) in
      (slot-IsServed d i proofs s p e there, All-IsServed proofs ds h.1 (λ did m. g did (inr m)))

  slots-DistinctIndexes :
      (dids : List String)
      → DistinctIndexes c dids
      → DistinctIndexes c (map (λ e. e.did) (map (slot c canonical_bytes nonce_of k) dids))
  slots-DistinctIndexes [] h = tt
  slots-DistinctIndexes (d ∷ ds) h = (apart ds h.0, slots-DistinctIndexes ds h.1)
    where
      apart :
          (es : List String)
          → All (λ e. did_to_index c d ≢ did_to_index c e) es
          → All
              (λ e. did_to_index c d ≢ did_to_index c e)
              (map (λ e. e.did) (map (slot c canonical_bytes nonce_of k) es))
      apart [] a = tt
      apart (e ∷ es) a = (a.0, apart es a.1)

  -- When there are as many responses as participants (`hasAllResponses`), and no two DIDs of
  -- participants have one index, `buildSMTTree` returns, and each participant finds a proof under its DID
  -- that verifies for its own index and the leaf of its own slot, whether it has submitted an update or
  -- not; 32-byte nonces are the condition.
  pub build_smt_tree-IsServed :
      has_all_responses k ≡ true
      → DistinctIndexes c k.participants
      → (k' : Cohort) × (proofs : Dict String (SerializedSmtProof Text)) × (build_smt_tree c
            canonical_bytes nonce_of k
          ≡ ok (k', proofs))
        × All (IsServed c (slot c canonical_bytes nonce_of k) proofs) k.participants
  unfolding build_smt_tree root_hash finalize
  build_smt_tree-IsServed complete_ distinct_ =
      let taken = add_entries-ok c laws slots (slots-DistinctIndexes k.participants distinct_) in
      let indexed =
        participants-IsIndexed tree_of k.participants
          (add_entries-IsIndexed c new_tree slots taken) in
      let (proofs, made, looked_up) =
        get-collect_proofs c (finalize c tree_of) k.participants []
          (participants-proof k.participants indexed) in
      (
        record k { signal_bytes = some (zero_hash_root c (leaves_of c tree_of.entries)) },
        proofs,
        built taken proofs made,
        All-IsServed proofs k.participants indexed (λ did. (looked_up did).0),
      )
    where
      built :
          (add_entries c new_tree slots).1 ≡ ok tt
          → (proofs : Dict String (SerializedSmtProof Text))
          → collect_proofs c (finalize c tree_of) k.participants [] ≡ ok proofs
          → build_smt_tree c canonical_bytes nonce_of k
            ≡ ok (
              record k { signal_bytes = some (zero_hash_root c (leaves_of c tree_of.entries)) },
              proofs,
            )
      built taken proofs made = unfold finalize in rw (complete_, taken, made) refl
