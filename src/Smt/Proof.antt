-- ===== src/Smt/Proof.antt =====
-- packages/smt/src/btcr2-leaf.ts and btcr2-proof.ts: leaf hashes, and proofs as the texts of a DID
-- sidecar. An absent or empty `nonce` or `updateId` is `none`.
pub mod Roundtrip
use Prim.Native.String.{String}
use did_btcr2_js.Prelude.{ℕ, ◌+◌, ◌≡◌, Bool, true, false, Option, none, some, List, [], ◌∷◌}
use did_btcr2_js.Prelude.Result.{Result, ok, err, guard, or_throw, map_m, ◌>>=◌, ◌>>◌}
use did_btcr2_js.Prelude.Utf8.{encode_utf8}
use did_btcr2_js.Smt.Hash.{
  Bytes, Error, Crypto, block_hash, hash_to_big_int, big_int_to_hash, hash_to_base64url,
  base64url_to_hash,
}
use did_btcr2_js.Smt.ZeroHash.{ZeroHashProof, verify_zero_hash}

pub record SerializedSmtProof (Text : Type 0) : Type 0 where
  pub id : Text
  pub nonce : Option Text
  pub update_id : Option Text
  pub collapsed : Text
  pub hashes : List Text

pub record DeserializedProof : Type 0 where
  pub root_hash : Bytes
  pub collapsed : ℕ
  pub hashes : List Bytes
  pub nonce : Option Bytes
  pub update_id : Option Bytes

-- `if (x) y = f(x)`, where f may throw.
abbrev pub map_option : {E A B : Type 0} → (A → Result E B) → Option A → Result E (Option B)
map_option f none = ok none
map_option f (some a) = f a >>= λ b. ok (some b)

module _ {Text : Type 0} (c : Crypto Text) where
  unfoldable pub did_to_index : String → Result Error ℕ
  did_to_index did = hash_to_big_int (block_hash c (encode_utf8 did ∷ []))

  pub inclusion_leaf_hash : Bytes → Bytes → Bytes
  inclusion_leaf_hash nonce signed_update =
      block_hash c (block_hash c (nonce ∷ []) ∷ block_hash c (signed_update ∷ []) ∷ [])

  pub non_inclusion_leaf_hash : Bytes → Bytes
  non_inclusion_leaf_hash nonce = block_hash c (block_hash c (nonce ∷ []) ∷ [])

  pub serialize_proof :
      Bytes → ZeroHashProof → Option Bytes → Option Bytes → Result Error (SerializedSmtProof Text)
  serialize_proof root_hash proof nonce update_id = do
    id ← hash_to_base64url c root_hash
    bitmap ← big_int_to_hash proof.collapsed
    collapsed ← hash_to_base64url c bitmap
    hashes ← map_m (hash_to_base64url c) proof.hashes
    nonce_text ← map_option (hash_to_base64url c) nonce
    update_text ← map_option (hash_to_base64url c) update_id
    ok (record {
      id = id;
      nonce = nonce_text;
      update_id = update_text;
      collapsed = collapsed;
      hashes = hashes;
    })

  pub deserialize_proof : SerializedSmtProof Text → Result Error DeserializedProof
  deserialize_proof serialized = do
    root_hash ← base64url_to_hash c serialized.id
    bitmap ← base64url_to_hash c serialized.collapsed
    collapsed ← hash_to_big_int bitmap
    hashes ← map_m (base64url_to_hash c) serialized.hashes
    nonce ← map_option (base64url_to_hash c) serialized.nonce
    update_id ← map_option (base64url_to_hash c) serialized.update_id
    ok (record {
      root_hash = root_hash;
      collapsed = collapsed;
      hashes = hashes;
      nonce = nonce;
      update_id = update_id;
    })

  pub verify_serialized_proof : SerializedSmtProof Text → ℕ → Bytes → Result Error Bool
  verify_serialized_proof serialized index candidate_hash = do
    p ← deserialize_proof serialized
    ok (verify_zero_hash c p.collapsed p.hashes index candidate_hash p.root_hash)
