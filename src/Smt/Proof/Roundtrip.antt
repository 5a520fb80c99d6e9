-- ===== src/Smt/Proof/Roundtrip.antt =====
-- `serializeProof` and `deserializeProof` of packages/smt/src/btcr2-proof.ts in both directions.
use did_btcr2_js.Prelude.{ℕ, ◌≡◌, refl, ◌^◌, ◌<◌, Option, none, some, List, [], ◌∷◌, All}
use did_btcr2_js.Prelude.Result.{ok, map_m}
use did_btcr2_js.Smt.Hash.{IsHash, Bytes, Crypto, CryptoLaws, hash_to_base64url, base64url_to_hash}
use did_btcr2_js.Smt.Hash.Roundtrip.{
  hash_to_big_int-lt, block_hash-IsHash, hash_to_big_int-big_int_to_hash,
  base64url_to_hash-hash_to_base64url,
}
use did_btcr2_js.Smt.ZeroHash.{verify_zero_hash, ZeroHashProof}
use did_btcr2_js.Smt.Proof.{
  did_to_index, inclusion_leaf_hash, non_inclusion_leaf_hash, verify_serialized_proof,
  SerializedSmtProof, DeserializedProof, map_option, serialize_proof, deserialize_proof,
}
use Prim.Native.String.{String}

abbrev pub IsHash? : Option Bytes → Type 0
IsHash? none = Unit
IsHash? (some h) = IsHash h

abbrev pub contents : Bytes → ZeroHashProof → Option Bytes → Option Bytes → DeserializedProof
contents root p nonce update_id = record {
  root_hash = root;
  collapsed = p.collapsed;
  hashes = p.hashes;
  nonce = nonce;
  update_id = update_id;
}

module _ {Text : Type 0} (c : Crypto Text) (laws : CryptoLaws c) where
  texts :
      (hs : List Bytes)
      → All IsHash hs
      → (ts : List Text) × (map_m (hash_to_base64url c) hs ≡ ok ts)
        × (map_m (base64url_to_hash c) ts ≡ ok hs)
  texts [] a = ([], refl, refl)
  texts (h ∷ hs) a =
      let (t, e, d) = base64url_to_hash-hash_to_base64url c laws h a.0.0 a.0.1 in
      let (ts, es, ds) = texts hs a.1 in (t ∷ ts, rw (e, es), rw (d, ds))

  text? :
      (h : Option Bytes)
      → IsHash? h
      → (t : Option Text) × (map_option (hash_to_base64url c) h ≡ ok t)
        × (map_option (base64url_to_hash c) t ≡ ok h)
  text? none a = (none, refl, refl)
  text? (some h) a =
      let (t, e, d) = base64url_to_hash-hash_to_base64url c laws h a.0 a.1 in (some t, rw e, rw d)

  -- A proof with a 32-byte root, 32-byte siblings, a bitmap below 2^256 and, where given, a 32-byte
  -- nonce and update id is serialised without error, and `deserializeProof` gives all of it back.
  pub deserialize-serialize :
      (root : Bytes) (p : ZeroHashProof) (nonce update_id : Option Bytes)
      → IsHash root
      → p.collapsed < 2 ^ 256
      → All IsHash p.hashes
      → IsHash? nonce
      → IsHash? update_id
      → (s : SerializedSmtProof Text) × (serialize_proof c root p nonce update_id ≡ ok s)
        × (deserialize_proof c s ≡ ok (contents root p nonce update_id))
  unfolding serialize_proof deserialize_proof
  deserialize-serialize root p nonce update_id r b hs n u =
      let (id, e1, d1) = base64url_to_hash-hash_to_base64url c laws root r.0 r.1 in
      let (bitmap, e2, d2, bytes, size) = hash_to_big_int-big_int_to_hash p.collapsed b in
      let (collapsed, e3, d3) = base64url_to_hash-hash_to_base64url c laws bitmap bytes size in
      let (ts, e4, d4) = texts p.hashes hs in
      let (n_text, e5, d5) = text? nonce n in
      let (u_text, e6, d6) = text? update_id u in
      (
        record { id = id; nonce = n_text; update_id = u_text; collapsed = collapsed; hashes = ts },
        rw (e1, e2, e3, e4, e5, e6),
        rw (d1, d3, d2, d4, d5, d6),
      )

  pub inclusion_leaf_hash-IsHash : (nonce u : Bytes) → IsHash (inclusion_leaf_hash c nonce u)
  unfolding inclusion_leaf_hash
  inclusion_leaf_hash-IsHash nonce u = block_hash-IsHash c laws _

  pub non_inclusion_leaf_hash-IsHash : (nonce : Bytes) → IsHash (non_inclusion_leaf_hash c nonce)
  unfolding non_inclusion_leaf_hash
  non_inclusion_leaf_hash-IsHash nonce = block_hash-IsHash c laws _

  -- A serialised proof verifies as the proof itself does.
  pub verify_serialized_proof-serialize :
      (root : Bytes) (p : ZeroHashProof) (nonce update_id : Option Bytes) (index : ℕ) (leaf : Bytes)
      → IsHash root
      → p.collapsed < 2 ^ 256
      → All IsHash p.hashes
      → IsHash? nonce
      → IsHash? update_id
      → (s : SerializedSmtProof Text) × (serialize_proof c root p nonce update_id ≡ ok s)
        × (verify_serialized_proof c s index leaf
            ≡ ok (verify_zero_hash c p.collapsed p.hashes index leaf root))
  unfolding verify_serialized_proof
  verify_serialized_proof-serialize root p nonce update_id index leaf r b hs n u =
      let (s, e, d) = deserialize-serialize root p nonce update_id r b hs n u in (s, e, rw d)

  -- The index of a DID has 256 bits.
  pub did_to_index-lt : (d : String) (i : ℕ) → did_to_index c d ≡ ok i → i < 2 ^ 256
  unfolding did_to_index
  did_to_index-lt d i e = hash_to_big_int-lt _ i (block_hash-IsHash c laws _).0 e
