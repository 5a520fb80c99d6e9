-- ===== src/Smt/Tree/Proofs.antt =====
-- `finalize` and `proof` of packages/smt/src/btcr2-tree.ts together with `verifySerializedProof`.
use did_btcr2_js.Smt.Tree.{finalize, proof, TreeEntry, leaf_hash, leaves_of, update_id_of, Tree}
use did_btcr2_js.Smt.Hash.{Bytes, Crypto, CryptoLaws, IsHash, block_hash}
use did_btcr2_js.Prelude.Dict.{All-get, Distinct, Dict, get}
use did_btcr2_js.Smt.Proof.{
  SerializedSmtProof, serialize_proof, verify_serialized_proof, did_to_index, inclusion_leaf_hash,
  non_inclusion_leaf_hash,
}
use did_btcr2_js.Prelude.{
  sym, List, ap, subst, true, ◌∙◌, ◌≢◌, All, Bool-cases, In, Option, [], arith, inl, inr, nat_beq,
  nat_beq_iff, nat_eq, none, some, string_eq, ℕ, ◌<◌, ◌^◌, ◌∷◌, ◌≡◌,
}
use did_btcr2_js.Smt.Hash.Roundtrip.{block_hash-IsHash}
use did_btcr2_js.Smt.Proof.Roundtrip.{
  did_to_index-lt, verify_serialized_proof-serialize, IsHash?, inclusion_leaf_hash-IsHash,
  non_inclusion_leaf_hash-IsHash,
}
use Prim.Native.String.{String}
use did_btcr2_js.Prelude.Result.{ok}
use did_btcr2_js.Smt.ZeroHash.{generate_zero_hash_proof, zero_hash_root, ZeroHashEntry}
use did_btcr2_js.Smt.ZeroHash.Completeness.{IsKeyed, generate-IsHash, verify_zero_hash-generate}
use did_btcr2_js.Smt.Tree.Invariant.{IsFiled}

abbrev update_part : {Text : Type 0} → Crypto Text → Option Bytes → Option Bytes
update_part c none = none
update_part c (some signed_update) = some (block_hash c (signed_update ∷ []))

module _ {Text : Type 0} (c : Crypto Text) (laws : CryptoLaws c) where
  leaf_hash-IsHash : (e : TreeEntry) → IsHash (leaf_hash c e)
  unfolding leaf_hash
  leaf_hash-IsHash e = go e.signed_update
    where
      go :
          (u : Option Bytes)
          → IsHash (elim u as (λ _. Bytes) [
            | none ↦ non_inclusion_leaf_hash c e.nonce
            | some signed_update ↦ inclusion_leaf_hash c e.nonce signed_update
          ])
      go none = non_inclusion_leaf_hash-IsHash c laws e.nonce
      go (some u) = inclusion_leaf_hash-IsHash c laws e.nonce u

  update_id_of-IsHash? : (e : TreeEntry) → IsHash? (update_id_of c e)
  unfolding update_id_of
  update_id_of-IsHash? e = go e.signed_update
    where
      go :
          (u : Option Bytes)
          → IsHash? (elim u as (λ _. Option Bytes) [
            | none ↦ none
            | some signed_update ↦ some (block_hash c (signed_update ∷ []))
          ])
      go none = tt
      go (some u) = block_hash-IsHash c laws (u ∷ [])

  leaves_of-IsHash : (m : Dict ℕ TreeEntry) → All (λ x. IsHash x.leaf) (leaves_of c m)
  unfolding leaves_of
  leaves_of-IsHash [] = tt
  leaves_of-IsHash ((i, e) ∷ m) = (leaf_hash-IsHash e, leaves_of-IsHash m)

  leaves_of-lt :
      (m : Dict ℕ TreeEntry)
      → All (λ p. (did_to_index c p.1.did ≡ ok p.0) × IsHash p.1.nonce) m
      → All (λ x. x.index < 2 ^ 256) (leaves_of c m)
  unfolding leaves_of
  leaves_of-lt [] a = tt
  leaves_of-lt ((i, e) ∷ m) a = (did_to_index-lt c laws e.did i a.0.0, leaves_of-lt m a.1)

module _ {Text : Type 0} (c : Crypto Text) where
  abbrev leaf_of : ℕ → TreeEntry → ZeroHashEntry
  leaf_of i e = record { index = i; leaf = leaf_hash c e }

  leaf_of-eq : (i j : ℕ) (e w : TreeEntry) → i ≡ j → e ≡ w → leaf_of i e ≡ leaf_of j w
  leaf_of-eq i j e w p q = λ k. leaf_of (p k) (q k)

  leaves_of-In :
      (m : Dict ℕ TreeEntry) (i : ℕ) (e : TreeEntry)
      → get i m ≡ some e
      → In (leaf_of i e) (leaves_of c m)
  unfolding leaves_of get
  leaves_of-In [] i e g = cc
  leaves_of-In ((j, w) ∷ m) i e g = elim (Bool-cases (nat_beq j i)) [
    | inl same ↦
        let p = (nat_beq_iff j i).0 same in
        let q : w ≡ e = ground arith in inl (leaf_of-eq i j e w (sym p) (sym q))
    | inr other ↦ inr (leaves_of-In m i e (rw (other, get) at g))
  ]

  leaves_of-absent :
      (m : Dict ℕ TreeEntry) (i : ℕ) → get i m ≡ none → All (λ x. x.index ≢ i) (leaves_of c m)
  unfolding leaves_of get
  leaves_of-absent [] i g = tt
  leaves_of-absent ((j, w) ∷ m) i g =
      (λ same. ground (arith, nat_beq_iff j i), leaves_of-absent m i (ground arith))

  vacuous :
      (i : ℕ) (l : Bytes) (xs : List ZeroHashEntry)
      → All (λ x. x.index ≢ i) xs
      → All (λ x. x.index ≡ i → x.leaf ≡ l) xs
  vacuous i l [] a = tt
  vacuous i l (x ∷ xs) a = (λ h. absurd (a.0 h), vacuous i l xs a.1)

  leaves_of-only :
      (m : Dict ℕ TreeEntry) (i : ℕ) (e : TreeEntry)
      → Distinct m
      → get i m ≡ some e
      → All (λ x. x.index ≡ i → x.leaf ≡ leaf_hash c e) (leaves_of c m)
  unfolding leaves_of get
  leaves_of-only [] i e d g = tt
  leaves_of-only ((j, w) ∷ m) i e d g = elim (Bool-cases (nat_beq j i)) [
    | inl same ↦
        let p = (nat_beq_iff j i).0 same in
        (
          λ _. ap (leaf_hash c) (ground arith),
          vacuous i _ (leaves_of c m) (leaves_of-absent m i (rw (← p) d.0)),
        )
    | inr other ↦
        (λ h. ground (arith, nat_beq_iff j i), leaves_of-only m i e d.1 (rw (other, get) at g))
  ]

  leaf-IsKeyed :
      CryptoLaws c
      → (t : Tree) (i : ℕ) (e : TreeEntry) → IsFiled c t
      → get i t.entries ≡ some e
      → IsKeyed (leaves_of c t.entries) (leaf_of i e)
  leaf-IsKeyed laws t i e f g = record {
    listed = leaves_of-In t.entries i e g;
    in_range = leaves_of-lt c laws t.entries f.keyed;
    only = leaves_of-only t.entries i e f.distinct g;
  }

  proof-finalize-eq :
      (t : Tree) (did : String) (i : ℕ) (e : TreeEntry) (s : SerializedSmtProof Text)
      → get did t.index_by_did ≡ some i
      → get i t.entries ≡ some e
      → serialize_proof c
          (zero_hash_root c (leaves_of c t.entries))
          (generate_zero_hash_proof c (leaves_of c t.entries) i)
          (some e.nonce)
          (update_id_of c e)
        ≡ ok s
      → proof c (finalize c t) did ≡ ok s
  unfolding proof finalize
  proof-finalize-eq t did i e s g h r = rw (g, h) r

-- What a finalized tree gives for a DID: its entry, a proof, and that the proof verifies.
pub record IsProved {Text : Type 0} (c : Crypto Text) (t : Tree) (did : String) (i : ℕ)
    : Type 0 where
  pub entry : TreeEntry
  pub serialized : SerializedSmtProof Text
  pub filed_under : get i t.entries ≡ some entry
  pub own : entry.did ≡ did
  pub indexed : did_to_index c did ≡ ok i
  pub proved : proof c (finalize c t) did ≡ ok serialized
  pub verifies : verify_serialized_proof c serialized i (leaf_hash c entry) ≡ ok true

-- For every DID that was added to a tree with 32-byte nonces, `proof` on the finalized tree returns a
-- serialised proof, and `verifySerializedProof` accepts it for the index of that DID and the leaf
-- hash of its own entry, whether the entry has an update or not.
pub proof-finalize :
    {Text : Type 0} (c : Crypto Text)
    → CryptoLaws c
    → (t : Tree) (did : String) (i : ℕ) → IsFiled c t
    → get did t.index_by_did ≡ some i
    → IsProved c t did i
proof-finalize c laws t did i f g =
    let (e, there, own) = f.named did i g in
    let (keyed, nonce) = All-get _ i e t.entries f.keyed there in
    let leaves = leaves_of c t.entries in
    let gen = generate_zero_hash_proof c leaves i in
    let (root, range, hashes) =
      generate-IsHash c laws leaves i (leaves_of-IsHash c laws t.entries) in
    let (s, made, checked) =
      verify_serialized_proof-serialize c laws (zero_hash_root c leaves) gen (some e.nonce)
        (update_id_of c e) i (leaf_hash c e) root range hashes nonce
        (update_id_of-IsHash? c laws e) in
    let accepted =
      verify_zero_hash-generate c laws leaves (leaf_of c i e) (leaf-IsKeyed c laws t i e f there) in
    record {
      entry = e;
      serialized = s;
      filed_under = there;
      own = own;
      indexed = subst (λ d. did_to_index c d ≡ ok i) own keyed;
      proved = proof-finalize-eq c t did i e s g there made;
      verifies = checked ∙ ap ok accepted;
    }
