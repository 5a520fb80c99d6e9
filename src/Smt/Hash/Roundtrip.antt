-- ===== src/Smt/Hash/Roundtrip.antt =====
-- The conversions of packages/smt/src/hash.ts in both directions.
use did_btcr2_js.Prelude.{
  List, ℕ, zero, suc, ◌+◌, ◌*◌, ◌/◌, ◌%◌, ◌^◌, ◌<◌, ◌≤◌, ◌≡◌, refl, ap, sym, ◌∙◌, true, [], ◌∷◌,
  ◌++◌, length, arith, ◌↔◌,
}
use did_btcr2_js.Prelude.Result.{ok, err}
use did_btcr2_js.Smt.Hash.{
  IsHash, Bytes, IsBytes, Crypto, CryptoLaws, block_hash, fold_bytes, hash_to_big_int, low_bytes,
  big_int_to_hash, is_valid_hash, value_exceeds_256_bits, hashes_equal, hash_to_base64url,
  base64url_to_hash,
}
use mathlib.Core.List.{append-nil}
use native.Mathlib.Nat.{div-div-eq-div-mul, pow-succ'}

-- What is left together with the bytes written stands for the value.
fold_bytes-low_bytes :
    (k v : ℕ) (acc : Bytes)
    → fold_bytes (low_bytes k v acc).0 (low_bytes k v acc).1 ≡ fold_bytes v acc
unfolding low_bytes fold_bytes
fold_bytes-low_bytes zero v acc = refl
fold_bytes-low_bytes (suc k) v acc =
    fold_bytes-low_bytes k (v / 256) ((v % 256) ∷ acc) ∙ ap (λ x. fold_bytes x acc) (omega arith)

low_bytes-IsBytes :
    (k v : ℕ) (acc : Bytes)
    → IsBytes acc
    → IsBytes (low_bytes k v acc).1 × (length (low_bytes k v acc).1 ≡ k + length acc)
unfolding low_bytes
low_bytes-IsBytes zero v acc h = (h, omega arith)
low_bytes-IsBytes (suc k) v acc h =
    let (b, n) = low_bytes-IsBytes k (v / 256) ((v % 256) ∷ acc) (omega arith, h) in
    (b, omega arith)

low_bytes-rest : (k v : ℕ) (acc : Bytes) → (low_bytes k v acc).0 ≡ v / 256 ^ k
unfolding low_bytes
low_bytes-rest zero v acc = omega arith
low_bytes-rest (suc k) v acc =
    low_bytes-rest k (v / 256) ((v % 256) ∷ acc)
    ∙ div-div-eq-div-mul v 256 (256 ^ k)
    ∙ ap (λ x. v / x) (sym (pow-succ' 256 k))

low_bytes-suc :
    (k v : ℕ) (acc : Bytes)
    → low_bytes (suc k) v acc
      ≡ ((low_bytes k v acc).0 / 256, ((low_bytes k v acc).0 % 256) ∷ (low_bytes k v acc).1)
unfolding low_bytes
low_bytes-suc zero v acc = refl
low_bytes-suc (suc k) v acc = low_bytes-suc k (v / 256) ((v % 256) ∷ acc)

low_bytes-fold_bytes :
    (a : ℕ) (bs acc : Bytes)
    → IsBytes bs
    → low_bytes (length bs) (fold_bytes a bs) acc ≡ (a, bs ++ acc)
unfolding fold_bytes
low_bytes-fold_bytes a [] acc h = unfold low_bytes in refl
low_bytes-fold_bytes a (b ∷ bs) acc h =
    let ih = low_bytes-fold_bytes (a * 256 + b) bs acc h.1 in
    let quotient : (a * 256 + b) / 256 ≡ a = omega (arith, h.0) in
    let digit : (a * 256 + b) % 256 ≡ b = omega (arith, h.0) in
    rw (low_bytes-suc (length bs) (fold_bytes (a * 256 + b) bs) acc, ih, quotient, digit)

hash_to_big_int-inv :
    (hash : Bytes) (v : ℕ)
    → hash_to_big_int hash ≡ ok v
    → (length hash ≡ 32) × (fold_bytes 0 hash ≡ v)
unfolding hash_to_big_int is_valid_hash
hash_to_big_int-inv hash v e = ground arith

pub hash_to_big_int_valid :
    (hash : Bytes) → length hash ≡ 32 → hash_to_big_int hash ≡ ok (fold_bytes 0 hash)
unfolding hash_to_big_int is_valid_hash
hash_to_big_int_valid hash e = ground arith

big_int_to_hash_of :
    (v : ℕ) (rest : ℕ) (hash : Bytes)
    → low_bytes 32 v [] ≡ (rest, hash)
    → rest ≡ 0
    → big_int_to_hash v ≡ ok hash
unfolding big_int_to_hash
big_int_to_hash_of v rest hash e z = rw (e, z)

-- A number below 2^256 survives being written as a hash and read back, and the hash has 32 bytes.
pub hash_to_big_int-big_int_to_hash :
    (v : ℕ)
    → v < 2 ^ 256
    → (hash : Bytes) × (big_int_to_hash v ≡ ok hash)
      × (hash_to_big_int hash ≡ ok v)
      × IsBytes hash
      × (length hash ≡ 32)
unfolding fold_bytes
hash_to_big_int-big_int_to_hash v h =
    let written = low_bytes-IsBytes 32 v [] tt in
    let empty : (low_bytes 32 v []).0 ≡ 0 = omega (arith, low_bytes-rest 32 v []) in
    let back : fold_bytes 0 (low_bytes 32 v []).1 ≡ v =
      rw empty at (fold_bytes-low_bytes 32 v []) in
    (
      (low_bytes 32 v []).1,
      big_int_to_hash_of v (low_bytes 32 v []).0 (low_bytes 32 v []).1 refl empty,
      hash_to_big_int_valid _ (omega arith) ∙ ap ok back,
      written.0,
      omega arith,
    )

-- A larger number is refused.
pub big_int_to_hash_overflow :
    (v : ℕ) → 2 ^ 256 ≤ v → big_int_to_hash v ≡ err value_exceeds_256_bits
unfolding big_int_to_hash
big_int_to_hash_overflow v h = ground (arith, low_bytes-rest 32 v [])

-- Reading 32 bytes as a number and writing it gives the same bytes.
pub big_int_to_hash-hash_to_big_int :
    (hash : Bytes) (v : ℕ)
    → IsBytes hash
    → hash_to_big_int hash ≡ ok v
    → big_int_to_hash v ≡ ok hash
big_int_to_hash-hash_to_big_int hash v h e =
    let (size, value) = hash_to_big_int-inv hash v e in
    let written = low_bytes-fold_bytes 0 hash [] h in
    big_int_to_hash_of v 0 hash
      (rw (← size, ← value) (written ∙ ap (λ x. (0, x)) (append-nil hash))) refl

-- What 32 bytes stand for is below 2^256.
pub hash_to_big_int-lt :
    (hash : Bytes) (v : ℕ) → IsBytes hash → hash_to_big_int hash ≡ ok v → v < 2 ^ 256
hash_to_big_int-lt hash v h e =
    let (size, value) = hash_to_big_int-inv hash v e in
    let zero_rest : (low_bytes 32 v []).0 ≡ 0 =
      rw (← size, ← value) (ap (λ p. p.0) (low_bytes-fold_bytes 0 hash [] h)) in
    omega (arith, low_bytes-rest 32 v [])

module _ {Text : Type 0} (c : Crypto Text) (laws : CryptoLaws c) where
  -- A 32-byte hash survives its base64url text.
  pub base64url_to_hash-hash_to_base64url :
      (hash : Bytes)
      → IsBytes hash
      → length hash ≡ 32
      → (t : Text) × (hash_to_base64url c hash ≡ ok t) × (base64url_to_hash c t ≡ ok hash)
  unfolding hash_to_base64url base64url_to_hash is_valid_hash
  base64url_to_hash-hash_to_base64url hash b n =
      (c.base64url_encode hash, rw n, rw (laws.decode-encode hash b, n))

  -- Equality of hashes is equality of 32-byte strings.
  pub hashes_equal_iff : (a b : Bytes) → (hashes_equal c a b ≡ true) ↔ ((length a ≡ 32) × (a ≡ b))
  unfolding hashes_equal is_valid_hash
  hashes_equal_iff a b = (forth, back)
    where
      forth : hashes_equal c a b ≡ true → (length a ≡ 32) × (a ≡ b)
      forth h = ground (arith, laws.equal_iff a b)

      back : (length a ≡ 32) × (a ≡ b) → hashes_equal c a b ≡ true
      back (n, e) = ground (arith, laws.equal_iff a b, ap length e)

  pub length-block_hash : (blocks : List Bytes) → length (block_hash c blocks) ≡ 32
  unfolding block_hash
  length-block_hash blocks = laws.sha256_length (c.concat_bytes blocks)

  pub block_hash-IsBytes : (blocks : List Bytes) → IsBytes (block_hash c blocks)
  unfolding block_hash
  block_hash-IsBytes blocks = laws.sha256_bytes (c.concat_bytes blocks)

  pub block_hash-IsHash : (blocks : List Bytes) → IsHash (block_hash c blocks)
  block_hash-IsHash blocks = (block_hash-IsBytes blocks, length-block_hash blocks)

  pub block_hash-pair : (x y : Bytes) → block_hash c (x ∷ y ∷ []) ≡ c.sha256 (x ++ y)
  unfolding block_hash mathlib.Core.List.flatten
  block_hash-pair x y = ap c.sha256 (laws.concat_lem (x ∷ y ∷ []) ∙ ap (λ t. x ++ t) (append-nil y))
