-- ===== src/Tests/Toy.antt =====
-- Concrete functions in place of the external ones: a byte sum padded to 32 bytes as the hash, and
-- byte lists as their own texts.
use did_btcr2_js.Prelude.{
  ◌<◌, All-append, Bool, [], arith, false, length, length-append, nat_beq, nat_beq_iff, refl,
  replicate, some, suc, true, zero, ℕ, ◌%◌, ◌&&◌, ◌++◌, ◌+◌, ◌↔◌, ◌∷◌, ◌≡◌,
}
use did_btcr2_js.Smt.Hash.{Bytes, Crypto, CryptoLaws, IsBytes}
use mathlib.Core.List.{flatten}

abbrev sum_bytes : Bytes → ℕ
sum_bytes [] = 0
sum_bytes (b ∷ bs) = b + sum_bytes bs

abbrev pub sum_hash : Bytes → Bytes
sum_hash m = replicate 31 0 ++ (sum_bytes m % 256) ∷ []

abbrev pub bytes_equal : Bytes → Bytes → Bool
bytes_equal [] [] = true
bytes_equal [] (y ∷ ys) = false
bytes_equal (x ∷ xs) [] = false
bytes_equal (x ∷ xs) (y ∷ ys) = nat_beq x y && bytes_equal xs ys

pub bytes_equal_iff : (a b : Bytes) → (bytes_equal a b ≡ true) ↔ (a ≡ b)
bytes_equal_iff [] [] = (λ _. refl, λ _. refl)
bytes_equal_iff [] (y ∷ ys) = (λ h. cc, λ h. cc)
bytes_equal_iff (x ∷ xs) [] = (λ h. cc, λ h. cc)
bytes_equal_iff (x ∷ xs) (y ∷ ys) = (
  λ h. ground (arith, bytes_equal_iff xs ys, nat_beq_iff x y),
  λ h. ground (arith, bytes_equal_iff xs ys, nat_beq_iff x y),
)

abbrev pub toy : Crypto Bytes
toy = record {
  sha256 = sum_hash;
  concat_bytes = flatten;
  equal_bytes = bytes_equal;
  base64url_encode = λ b. b;
  base64url_decode = λ t. some t;
}

zeros-IsBytes : (n : ℕ) → IsBytes (replicate n 0)
zeros-IsBytes zero = tt
zeros-IsBytes (suc n) = (omega arith, zeros-IsBytes n)

pub sum_hash-IsBytes : (m : Bytes) → IsBytes (sum_hash m)
sum_hash-IsBytes m =
    All-append {A = ℕ} (λ b. b < 256) (replicate 31 0) ((sum_bytes m % 256) ∷ []) (zeros-IsBytes 31)
      (omega arith, tt)

pub length-sum_hash : (m : Bytes) → length (sum_hash m) ≡ 32
length-sum_hash m = length-append {A = ℕ} (replicate 31 0) ((sum_bytes m % 256) ∷ [])

pub toy_laws : CryptoLaws toy
toy_laws = record {
  sha256_length = length-sum_hash;
  sha256_bytes = sum_hash-IsBytes;
  concat_lem = λ bs. refl;
  equal_iff = bytes_equal_iff;
  decode-encode = λ b h. refl;
}
