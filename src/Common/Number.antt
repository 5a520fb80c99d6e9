-- ===== src/Common/Number.antt =====
-- JavaScript numbers, as far as the repository's range checks tell them apart.
use did_btcr2_js.Prelude.{Bool, false, true, leb, ltb, ℕ}

-- `negative n` is -(n + 1); `fraction n` lies strictly between n and n + 1, `negative_fraction n`
-- strictly between -(n + 1) and -n.
pub data Number : Type 0 where
  natural : ℕ → Number
  negative : ℕ → Number
  fraction : ℕ → Number
  negative_fraction : ℕ → Number
  infinity negative_infinity nan : Number

-- `Number.isInteger`
unfoldable pub is_integer : Number → Bool
is_integer (natural n) = true
is_integer (negative n) = true
is_integer (fraction n) = false
is_integer (negative_fraction n) = false
is_integer infinity = false
is_integer negative_infinity = false
is_integer nan = false

-- `Number.isFinite`
unfoldable pub is_finite : Number → Bool
is_finite (natural n) = true
is_finite (negative n) = true
is_finite (fraction n) = true
is_finite (negative_fraction n) = true
is_finite infinity = false
is_finite negative_infinity = false
is_finite nan = false

-- `x < n`
unfoldable pub below : Number → ℕ → Bool
below (natural x) n = ltb x n
below (negative x) n = true
below (fraction x) n = ltb x n
below (negative_fraction x) n = true
below infinity n = false
below negative_infinity n = true
below nan n = false

-- `x > n`
unfoldable pub above : Number → ℕ → Bool
above (natural x) n = ltb n x
above (negative x) n = false
above (fraction x) n = leb n x
above (negative_fraction x) n = false
above infinity n = true
above negative_infinity n = false
above nan n = false

-- `x < y` between integers, the only comparison of two such values that the code makes.
unfoldable pub less : Number → Number → Bool
less (natural x) (natural y) = ltb x y
less (natural x) _ = false
less (negative x) (natural y) = true
less (negative x) (negative y) = ltb y x
less (negative x) _ = false
less _ _ = false

-- `n >= x`
unfoldable pub at_least : ℕ → Number → Bool
at_least n (natural x) = leb x n
at_least n (negative x) = true
at_least n (fraction x) = ltb x n
at_least n (negative_fraction x) = true
at_least n infinity = false
at_least n negative_infinity = true
at_least n nan = false
