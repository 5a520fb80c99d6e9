-- ===== src/Smt/ZeroHash/Paths.antt =====
-- The subtrees of packages/smt/src/zero-hash.ts along the path of an index.
use did_btcr2_js.Prelude.{
  ℕ, suc, ◌+◌, ◌≡◌, ◌≢◌, refl, ap, ◌∙◌, inl, inr, Bool, true, false, not, ◌&&◌, List, [], ◌∷◌,
  nat_beq, filter, if◌then◌else◌, arith, Bool-cases, filter_congr, filter-filter,
}
use did_btcr2_js.Smt.Bits.{bit_at, bit_at-le}
use did_btcr2_js.Smt.Hash.{Crypto, block_hash}
use did_btcr2_js.Smt.ZeroHash.{
  ZeroHashEntry, tree_depth, same_bit, shares_lower_path, sibling_leaves, subtree_hash, join,
}

-- The leaves of the subtree that holds the target, below `i` bits of its path.
abbrev pub path_leaves : List ZeroHashEntry → ℕ → ℕ → List ZeroHashEntry
path_leaves leaves target i = filter (λ e. shares_lower_path i e.index target) leaves

abbrev zero_at : ℕ → ZeroHashEntry → Bool
zero_at i x = nat_beq (bit_at x.index i) 0

abbrev beside : ℕ → ℕ → ℕ → Bool
beside i x t = not (nat_beq x t) && shares_lower_path i x t && not (same_bit i x t)

split_zero :
    (i x t : ℕ) (b : Bool)
    → nat_beq (bit_at t i) 0 ≡ b
    → (shares_lower_path i x t && nat_beq (bit_at x i) 0)
      ≡ (if b then shares_lower_path (suc i) x t else beside i x t)
unfolding shares_lower_path
split_zero i x t b e =
    ground (arith, bit_at-le x i, bit_at-le t i, ap (λ y. bit_at y i) {x = x} {y = t})

split_one :
    (i x t : ℕ) (b : Bool)
    → nat_beq (bit_at t i) 0 ≡ b
    → (shares_lower_path i x t && not (nat_beq (bit_at x i) 0))
      ≡ (if b then beside i x t else shares_lower_path (suc i) x t)
unfolding shares_lower_path
split_one i x t b e =
    ground (arith, bit_at-le x i, bit_at-le t i, ap (λ y. bit_at y i) {x = x} {y = t})

module _ (leaves : List ZeroHashEntry) (t i : ℕ) where
  zeros_of_path :
      (b : Bool)
      → nat_beq (bit_at t i) 0 ≡ b
      → filter (zero_at i) (path_leaves leaves t i)
        ≡ (if b then path_leaves leaves t (suc i) else sibling_leaves leaves t i)
  unfolding sibling_leaves
  zeros_of_path true e =
      filter-filter _ _ leaves ∙ filter_congr _ _ leaves (λ x. split_zero i x.index t true e)
  zeros_of_path false e =
      filter-filter _ _ leaves ∙ filter_congr _ _ leaves (λ x. split_zero i x.index t false e)

  ones_of_path :
      (b : Bool)
      → nat_beq (bit_at t i) 0 ≡ b
      → filter (λ x. not (zero_at i x)) (path_leaves leaves t i)
        ≡ (if b then sibling_leaves leaves t i else path_leaves leaves t (suc i))
  unfolding sibling_leaves
  ones_of_path true e =
      filter-filter _ _ leaves ∙ filter_congr _ _ leaves (λ x. split_one i x.index t true e)
  ones_of_path false e =
      filter-filter _ _ leaves ∙ filter_congr _ _ leaves (λ x. split_one i x.index t false e)

module _ {Text : Type 0} (c : Crypto Text) where
  subtree_hash-split :
      (h i : ℕ) (xs : List ZeroHashEntry)
      → h + suc i ≡ tree_depth
      → xs ≢ []
      → subtree_hash c (suc h) xs
        ≡ block_hash c (
            subtree_hash c h (filter (zero_at i) xs)
            ∷ subtree_hash c h (filter (λ x. not (zero_at i x)) xs)
            ∷ [])
  unfolding subtree_hash
  subtree_hash-split h i [] e n = absurd (n refl)
  subtree_hash-split h i (x ∷ xs) e n =
      ap
        (λ k. block_hash c (
          subtree_hash c h (filter (zero_at k) (x ∷ xs))
          ∷ subtree_hash c h (filter (λ y. not (zero_at k y)) (x ∷ xs))
          ∷ []))
        (omega arith)

  -- A subtree on the target's path is joined from its own side and its sibling.
  pub subtree_hash-join :
      (leaves : List ZeroHashEntry) (t h i : ℕ)
      → h + suc i ≡ tree_depth
      → path_leaves leaves t i ≢ []
      → subtree_hash c (suc h) (path_leaves leaves t i)
        ≡ join c t i
            (subtree_hash c h (sibling_leaves leaves t i))
            (subtree_hash c h (path_leaves leaves t (suc i)))
  unfolding join
  subtree_hash-join leaves t h i e n =
      subtree_hash-split h i (path_leaves leaves t i) e n
      ∙ elim (Bool-cases (nat_beq (bit_at t i) 0)) [
        | inl z ↦
            rw (zeros_of_path leaves t i true z, ones_of_path leaves t i true z) (ground arith)
        | inr z ↦
            rw (zeros_of_path leaves t i false z, ones_of_path leaves t i false z)
              (ground (arith, bit_at-le t i))
      ]
