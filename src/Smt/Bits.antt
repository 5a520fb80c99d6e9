-- ===== src/Smt/Bits.antt =====
-- `bitAt` of packages/smt/src/zero-hash.ts, and the update `collapsed |= (1n << BigInt(bit))` of
-- `generateZeroHashProof`, on natural numbers.
use native.Mathlib.Nat.{div-div-eq-div-mul, pow-succ'}
use did_btcr2_js.Prelude.{
  ℕ, zero, suc, ◌+◌, ◌*◌, ◌/◌, ◌%◌, ◌^◌, ◌≤◌, ◌<◌, ◌≡◌, refl, ◌≢◌, sym, ap, ◌∙◌, if◌then◌else◌,
  nat_beq, arith,
}

-- Number((index >> BigInt(position)) & 1n)
pub bit_at : ℕ → ℕ → ℕ
bit_at index position = index / 2 ^ position % 2

-- value |= (1n << BigInt(position)): the bit is added where it is clear.
pub set_bit : ℕ → ℕ → ℕ
set_bit value position = if nat_beq (bit_at value position) 1 then value else value + 2 ^ position

pub bit_at-le : (x i : ℕ) → bit_at x i ≤ 1
unfolding bit_at
bit_at-le x i = omega arith

pub bit_at_zero : (i : ℕ) → bit_at 0 i ≡ 0
unfolding bit_at
bit_at_zero i = omega arith

bit_at-zero : (x : ℕ) → bit_at x 0 ≡ x % 2
unfolding bit_at
bit_at-zero x = omega arith

bit_at-suc : (x i : ℕ) → bit_at x (suc i) ≡ bit_at (x / 2) i
unfolding bit_at
bit_at-suc x i = rw (pow-succ' 2 i, ← div-div-eq-div-mul x 2 (2 ^ i))

set_bit-zero : (x : ℕ) → set_bit x 0 ≡ 2 * (x / 2) + 1
unfolding set_bit
set_bit-zero x = ground (arith, bit_at-zero x)

set_bit-suc : (x i : ℕ) → set_bit x (suc i) ≡ 2 * set_bit (x / 2) i + x % 2
unfolding set_bit
set_bit-suc x i = ground (arith, bit_at-suc x i, pow-succ' 2 i)

halve_double : (y x : ℕ) → (2 * y + x % 2) / 2 ≡ y
halve_double y x = omega arith

pub bit_at-set_bit_self : (x i : ℕ) → bit_at (set_bit x i) i ≡ 1
bit_at-set_bit_self x zero = omega (arith, set_bit-zero x, bit_at-zero (set_bit x 0))
bit_at-set_bit_self x (suc i) =
    rw (bit_at-suc, set_bit-suc x i)
      (rw (halve_double (set_bit (x / 2) i) x) (bit_at-set_bit_self (x / 2) i))

pub bit_at-set_bit_ne : (x i j : ℕ) → i ≢ j → bit_at (set_bit x i) j ≡ bit_at x j
bit_at-set_bit_ne x zero zero h = absurd (h refl)
bit_at-set_bit_ne x zero (suc j) h =
    let e : (2 * (x / 2) + 1) / 2 ≡ x / 2 = omega arith in
    rw (set_bit-zero x, bit_at-suc (2 * (x / 2) + 1) j, bit_at-suc x j, e)
bit_at-set_bit_ne x (suc i) zero h =
    omega (arith, set_bit-suc x i, bit_at-zero (set_bit x (suc i)), bit_at-zero x)
bit_at-set_bit_ne x (suc i) (suc j) h =
    rw (bit_at-suc (set_bit x (suc i)) j, bit_at-suc x j, set_bit-suc x i)
      (rw (halve_double (set_bit (x / 2) i) x) (bit_at-set_bit_ne (x / 2) i j (λ e. h (ap suc e))))

half_below : (n x : ℕ) → x < 2 ^ suc n → x / 2 < 2 ^ n
half_below n x h = omega (arith, pow-succ' 2 n)

-- Numbers below 2 ^ n with the same n bits are equal.
pub eq_of_bits :
    (n x y : ℕ) → x < 2 ^ n → y < 2 ^ n → ((i : ℕ) → i < n → bit_at x i ≡ bit_at y i) → x ≡ y
eq_of_bits zero x y hx hy same = omega arith
eq_of_bits (suc n) x y hx hy same =
    let halves = eq_of_bits n (x / 2) (y / 2) (half_below n x hx) (half_below n y hy) shifted in
    omega (arith, same 0 (omega arith), bit_at-zero x, bit_at-zero y)
  where
    shifted : (i : ℕ) → i < n → bit_at (x / 2) i ≡ bit_at (y / 2) i
    shifted i h = sym (bit_at-suc x i) ∙ same (suc i) (omega arith) ∙ bit_at-suc y i

-- Setting one of the low n bits keeps a number below 2 ^ n.
pub set_bit-lt : (x i n : ℕ) → i < n → x < 2 ^ n → set_bit x i < 2 ^ n
set_bit-lt x i zero b h = elim b [ ]
set_bit-lt x zero (suc n) b h = omega (arith, set_bit-zero x, half_below n x h, pow-succ' 2 n)
set_bit-lt x (suc i) (suc n) b h =
    omega (
      arith,
      set_bit-suc x i,
      set_bit-lt (x / 2) i n (omega arith) (half_below n x h),
      pow-succ' 2 n,
    )
