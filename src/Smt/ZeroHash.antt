-- ===== src/Smt/ZeroHash.antt =====
-- packages/smt/src/zero-hash.ts: root, proof generation and verification of the zero-hash tree.
-- Level `i` splits the leaves by bit `i`, so the subtree at height `h` splits by bit `256 - h`.
mod Paths
mod Rounds
pub mod Completeness
pub mod Binding
use did_btcr2_js.Prelude.{
  ℕ, zero, suc, ◌+◌, ◌-◌, ◌≡◌, Bool, true, false, not, ◌&&◌, Option, none, some, List, [], ◌∷◌,
  ◌++◌, nat_beq, length, filter, if◌then◌else◌,
}
use did_btcr2_js.Smt.Bits.{bit_at, set_bit}
use did_btcr2_js.Smt.Hash.{Bytes, Crypto, null_hash, block_hash, hashes_equal}

abbrev pub tree_depth : ℕ
tree_depth = 256

pub record ZeroHashEntry : Type 0 where
  pub index : ℕ
  pub leaf : Bytes

pub record ZeroHashProof : Type 0 where
  pub collapsed : ℕ
  pub hashes : List Bytes

-- `bitAt(a, i) === bitAt(b, i)`
abbrev pub same_bit : ℕ → ℕ → ℕ → Bool
same_bit i a b = nat_beq (bit_at a i) (bit_at b i)

-- The loop over `lower`: the two indexes agree on the bits below `bit`.
pub shares_lower_path : ℕ → ℕ → ℕ → Bool
shares_lower_path zero a b = true
shares_lower_path (suc bit) a b = shares_lower_path bit a b && same_bit bit a b

-- The leaves of the subtree that hangs beside the target's path at `bit`.
pub sibling_leaves : List ZeroHashEntry → ℕ → ℕ → List ZeroHashEntry
sibling_leaves leaves target bit =
    filter
      (λ e.
        not (nat_beq e.index target)
        && shares_lower_path bit e.index target
        && not (same_bit bit e.index target))
      leaves

-- `hashPtr === hashes.length`
abbrev pub is_empty : List Bytes → Bool
is_empty [] = true
is_empty (h ∷ hs) = false

module _ {Text : Type 0} (c : Crypto Text) where
  -- CACHED_ZERO[h]: h + 1 rounds of `z = blockHash(z, z)` from the null hash.
  pub cached_zero : ℕ → Bytes
  cached_zero zero = block_hash c (null_hash ∷ null_hash ∷ [])
  cached_zero (suc h) = let z = cached_zero h in block_hash c (z ∷ z ∷ [])

  pub subtree_hash : ℕ → List ZeroHashEntry → Bytes
  subtree_hash height [] = cached_zero height
  subtree_hash zero (e ∷ es) = e.leaf
  subtree_hash (suc h) (e ∷ es) =
      let bit = tree_depth - suc h in
      block_hash c (
        subtree_hash h (filter (λ x. nat_beq (bit_at x.index bit) 0) (e ∷ es))
        ∷ subtree_hash h (filter (λ x. not (nat_beq (bit_at x.index bit) 0)) (e ∷ es))
        ∷ [])

  pub zero_hash_root : List ZeroHashEntry → Bytes
  zero_hash_root leaves = subtree_hash tree_depth leaves

  -- One round of `generateZeroHashProof`, for the height at which the tree splits by `bit`.
  pub proof_round : List ZeroHashEntry → ℕ → ℕ → ZeroHashProof → ZeroHashProof
  proof_round leaves target bit p = elim (sibling_leaves leaves target bit) [
    | [] ↦ record p { collapsed = set_bit p.collapsed bit }
    | e ∷ es ↦ record p { hashes = p.hashes ++ subtree_hash (tree_depth - bit - 1) (e ∷ es) ∷ [] }
  ]

  -- The rounds for the heights 256 - bits + 1 to 256, that is for the bits below `bits`, falling.
  pub proof_rounds : List ZeroHashEntry → ℕ → ℕ → ZeroHashProof → ZeroHashProof
  proof_rounds leaves target zero p = p
  proof_rounds leaves target (suc bit) p =
      proof_rounds leaves target bit (proof_round leaves target bit p)

  pub generate_zero_hash_proof : List ZeroHashEntry → ℕ → ZeroHashProof
  generate_zero_hash_proof leaves target =
      proof_rounds leaves target tree_depth (record { collapsed = 0; hashes = [] })

  -- `bitAt(index, i) === 1 ? blockHash(sibling, acc) : blockHash(acc, sibling)`
  pub join : ℕ → ℕ → Bytes → Bytes → Bytes
  join index i sibling acc =
      if nat_beq (bit_at index i) 1
      then block_hash c (sibling ∷ acc ∷ [])
      else block_hash c (acc ∷ sibling ∷ [])

  -- The loop of `verifyZeroHash` for the levels i below `levels`, falling, with n = 255 - i. In place
  -- of `hashPtr` stand the hashes that are left; `none` is `return false` when they run out.
  pub climb : ℕ → ℕ → ℕ → Bytes → List Bytes → Option (Bytes × List Bytes)
  climb zero collapsed index acc hashes = some (acc, hashes)
  climb (suc i) collapsed index acc hashes = elim (nat_beq (bit_at collapsed i) 1) [
    | true ↦ climb i collapsed index (join index i (cached_zero (tree_depth - 1 - i)) acc) hashes
    | false ↦ elim hashes [
      | [] ↦ none
      | sibling ∷ rest ↦ climb i collapsed index (join index i sibling acc) rest
    ]
  ]

  pub verify_zero_hash : ℕ → List Bytes → ℕ → Bytes → Bytes → Bool
  verify_zero_hash collapsed hashes index candidate root =
      elim (climb tree_depth collapsed index candidate hashes) [
        | none ↦ false
        | some (acc, rest) ↦ is_empty rest && hashes_equal c acc root
      ]
