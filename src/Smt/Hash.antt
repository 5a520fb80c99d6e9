-- ===== src/Smt/Hash.antt =====
-- packages/smt/src/hash.ts and constants.ts: 32-byte hashes and their conversions.
-- `sha256`, `concatBytes`, `equalBytes` and the base64url coder come from npm packages, so they are
-- the record `Crypto`, with what their documentation promises in `CryptoLaws`.
pub mod Roundtrip
use mathlib.Core.List.{flatten}
use did_btcr2_js.Prelude.{
  ℕ, zero, suc, ◌+◌, ◌*◌, ◌/◌, ◌%◌, ◌<◌, ◌≡◌, ◌↔◌, Bool, true, false, ◌&&◌, Option, none, some,
  List, [], ◌∷◌, nat_beq, length, replicate, All,
}
use did_btcr2_js.Prelude.Result.{Result, ok, err, guard, or_throw, ◌>>=◌, ◌>>◌}

abbrev pub Bytes : Type 0
Bytes = List ℕ

abbrev pub IsBytes : Bytes → Type 0
IsBytes = All (λ b. b < 256)

abbrev pub IsHash : Bytes → Type 0
IsHash h = IsBytes h × (length h ≡ 32)

pub data Error : Type 0 where
  invalid_hash value_exceeds_256_bits invalid_base64url : Error
  duplicate_did_index did_not_in_tree tree_not_finalized type_error : Error

-- The functions that packages/smt takes from @noble/hashes, @noble/curves and @scure/base.
pub record Crypto (Text : Type 0) : Type 0 where
  pub sha256 : Bytes → Bytes
  pub concat_bytes : List Bytes → Bytes
  pub equal_bytes : Bytes → Bytes → Bool
  pub base64url_encode : Bytes → Text
  pub base64url_decode : Text → Option Bytes

pub record CryptoLaws {Text : Type 0} (c : Crypto Text) : Type 0 where
  pub sha256_length : (m : Bytes) → length (c.sha256 m) ≡ 32
  pub sha256_bytes : (m : Bytes) → IsBytes (c.sha256 m)
  pub concat_lem : (bs : List Bytes) → c.concat_bytes bs ≡ flatten bs
  pub equal_iff : (a b : Bytes) → (c.equal_bytes a b ≡ true) ↔ (a ≡ b)
  pub decode-encode : (b : Bytes) → IsBytes b → c.base64url_decode (c.base64url_encode b) ≡ some b

abbrev pub hash_byte_length : ℕ
hash_byte_length = 32

abbrev pub null_hash : Bytes
null_hash = replicate hash_byte_length 0

unfoldable pub is_valid_hash : Bytes → Bool
is_valid_hash hash = nat_beq (length hash) hash_byte_length

abbrev pub validate_hash : Bytes → Result Error (Unit {0})
validate_hash hash = guard (is_valid_hash hash) invalid_hash

-- The loop `value = (value << 8n) | BigInt(byte)`.
unfoldable pub fold_bytes : ℕ → Bytes → ℕ
fold_bytes value [] = value
fold_bytes value (byte ∷ rest) = fold_bytes (value * 256 + byte) rest

unfoldable pub hash_to_big_int : Bytes → Result Error ℕ
hash_to_big_int hash = do validate_hash hash; ok (fold_bytes 0 hash)

-- The loop `hash[i] = Number(v & 0xFFn); v >>= 8n` for falling i: what is left of v, and the bytes.
unfoldable pub low_bytes : ℕ → ℕ → Bytes → ℕ × Bytes
low_bytes zero v hash = (v, hash)
low_bytes (suc i) v hash = low_bytes i (v / 256) ((v % 256) ∷ hash)

unfoldable pub big_int_to_hash : ℕ → Result Error Bytes
big_int_to_hash value =
    let (v, hash) = low_bytes hash_byte_length value [] in
    do guard (nat_beq v 0) value_exceeds_256_bits; ok hash

module _ {Text : Type 0} (c : Crypto Text) where
  unfoldable pub block_hash : List Bytes → Bytes
  block_hash blocks = c.sha256 (c.concat_bytes blocks)

  pub hashes_equal : Bytes → Bytes → Bool
  hashes_equal a b = is_valid_hash a && is_valid_hash b && c.equal_bytes a b

  pub hash_to_base64url : Bytes → Result Error Text
  hash_to_base64url hash = do validate_hash hash; ok (c.base64url_encode hash)

  pub base64url_to_hash : Text → Result Error Bytes
  base64url_to_hash b64u = do
    hash ← or_throw (c.base64url_decode b64u) invalid_base64url
    guard (nat_beq (length hash) hash_byte_length) invalid_hash
    ok hash
