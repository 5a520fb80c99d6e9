-- ===== src/Smt/ZeroHash/Completeness.antt =====
-- `generateZeroHashProof` beside `verifyZeroHash` of packages/smt/src/zero-hash.ts.
use did_btcr2_js.Prelude.{
  ℕ, zero, suc, ◌<◌, ◌^◌, ◌≡◌, ◌≢◌, refl, ap, ◌∙◌, subst, inl, inr, true, some, List, [], ◌∷◌,
  length, In, All, All-In, arith, Bool-cases, filter_all, In-filter,
}
use native.Mathlib.Decide.{ℕ_discrete}
use did_btcr2_js.Smt.Bits.{bit_at_zero, bit_at, eq_of_bits}
use did_btcr2_js.Smt.Hash.{IsHash, Bytes, Crypto, CryptoLaws}
use did_btcr2_js.Smt.Hash.Roundtrip.{length-block_hash, hashes_equal_iff}
use did_btcr2_js.Smt.ZeroHash.Rounds.{
  subtree_hash-IsHash, proof_rounds-lt, siblings-IsHash, proof_rounds-hashes, proof_rounds-Fits,
  climb-siblings,
}
use did_btcr2_js.Smt.ZeroHash.Paths.{path_leaves}
use did_btcr2_js.Smt.ZeroHash.{
  ZeroHashEntry, ZeroHashProof, tree_depth, shares_lower_path, cached_zero, subtree_hash,
  zero_hash_root, proof_rounds, generate_zero_hash_proof, climb, verify_zero_hash,
}

-- The entry is in the tree, indexes are 256-bit numbers, and its index has no other leaf hash.
pub record IsKeyed (leaves : List ZeroHashEntry) (e : ZeroHashEntry) : Type 0 where
  pub listed : In e leaves
  pub in_range : All (λ x. x.index < 2 ^ 256) leaves
  pub only : All (λ x. x.index ≡ e.index → x.leaf ≡ e.leaf) leaves

shares_refl : (i t : ℕ) → shares_lower_path i t t ≡ true
unfolding shares_lower_path
shares_refl zero t = refl
shares_refl (suc i) t = ground (arith, shares_refl i t)

shares_none : (t : ℕ) (xs : List ZeroHashEntry) → All (λ x. shares_lower_path 0 x.index t ≡ true) xs
unfolding shares_lower_path
shares_none t [] = tt
shares_none t (x ∷ xs) = (refl, shares_none t xs)

shares→same_bit :
    (i x t : ℕ) → shares_lower_path i x t ≡ true → (j : ℕ) → j < i → bit_at x j ≡ bit_at t j
unfolding shares_lower_path
shares→same_bit zero x t h j b = elim b [ ]
shares→same_bit (suc i) x t h j b = elim (ℕ_discrete j i) [
  | yes same ↦ rw same (ground arith)
  | no other ↦ shares→same_bit i x t (ground arith) j (omega arith)
]

path_leaves-ne_nil :
    (leaves : List ZeroHashEntry) (e : ZeroHashEntry) (i : ℕ)
    → In e leaves
    → path_leaves leaves e.index i ≢ []
path_leaves-ne_nil leaves e i m h =
    let kept =
      In-filter (λ x. shares_lower_path i x.index e.index) leaves e m (shares_refl i e.index) in
    subst (In e) h kept

module _ {Text : Type 0} (c : Crypto Text) where
  subtree_hash-leaf :
      (l : Bytes) (xs : List ZeroHashEntry)
      → All (λ x. x.leaf ≡ l) xs
      → xs ≢ []
      → subtree_hash c 0 xs ≡ l
  unfolding subtree_hash
  subtree_hash-leaf l [] a n = absurd (n refl)
  subtree_hash-leaf l (x ∷ xs) a n = a.0

  path_leaf :
      (e : ZeroHashEntry) (xs : List ZeroHashEntry)
      → e.index < 2 ^ 256
      → All (λ x. x.index < 2 ^ 256) xs
      → All (λ x. x.index ≡ e.index → x.leaf ≡ e.leaf) xs
      → All (λ x. x.leaf ≡ e.leaf) (path_leaves xs e.index tree_depth)
  path_leaf e [] b r o = tt
  path_leaf e (x ∷ xs) b r o =
      let rest = path_leaf e xs b r.1 o.1 in
      elim (Bool-cases (shares_lower_path tree_depth x.index e.index)) [
        | inl s ↦
            let same =
              eq_of_bits tree_depth x.index e.index r.0 b
                (shares→same_bit tree_depth x.index e.index s) in
            rw s (o.0 same, rest)
        | inr s ↦ rw s rest
      ]

  length-subtree_hash :
      CryptoLaws c → (h : ℕ) (xs : List ZeroHashEntry) → length (subtree_hash c (suc h) xs) ≡ 32
  unfolding subtree_hash cached_zero
  length-subtree_hash laws h [] = length-block_hash c laws _
  length-subtree_hash laws h (x ∷ xs) = length-block_hash c laws _

  -- A generated proof climbs from the leaf to the root and uses up its hashes.
  climb-generate :
      (leaves : List ZeroHashEntry) (e : ZeroHashEntry)
      → IsKeyed leaves e
      → climb c tree_depth
          (generate_zero_hash_proof c leaves e.index).collapsed
          e.index
          e.leaf
          (generate_zero_hash_proof c leaves e.index).hashes
        ≡ some (zero_hash_root c leaves, [])
  unfolding generate_zero_hash_proof zero_hash_root
  climb-generate leaves e k =
      let t = e.index in
      let start : ZeroHashProof = record { collapsed = 0; hashes = [] } in
      let bitmap = (proof_rounds c leaves t tree_depth start).collapsed in
      let filled = λ (i : ℕ). path_leaves-ne_nil leaves e i k.listed in
      let range = All-In (λ x. x.index < 2 ^ 256) leaves e k.in_range k.listed in
      let own =
        subtree_hash-leaf e.leaf (path_leaves leaves t tree_depth)
          (path_leaf e leaves range k.in_range k.only) (filled tree_depth) in
      let fits = proof_rounds-Fits c leaves t tree_depth start (λ j b. bit_at_zero j) in
      let path_end = filter_all _ leaves (shares_none t leaves) in
      rw (proof_rounds-hashes c leaves t tree_depth start, ← own)
        (climb-siblings c leaves t tree_depth 0 bitmap refl fits filled
          ∙ ap (λ xs. some (subtree_hash c tree_depth xs, [])) path_end)

pub length-zero_hash_root :
    {Text : Type 0} (c : Crypto Text)
    → CryptoLaws c
    → (leaves : List ZeroHashEntry) → length (zero_hash_root c leaves) ≡ 32
unfolding zero_hash_root
length-zero_hash_root c laws leaves = length-subtree_hash c laws 255 leaves

-- A generated proof can be serialised: its bitmap has 256 bits and its hashes 32 bytes each.
pub generate-IsHash :
    {Text : Type 0} (c : Crypto Text)
    → CryptoLaws c
    → (leaves : List ZeroHashEntry) (t : ℕ) → All (λ x. IsHash x.leaf) leaves
    → IsHash (zero_hash_root c leaves)
      × ((generate_zero_hash_proof c leaves t).collapsed < 2 ^ 256)
      × All IsHash (generate_zero_hash_proof c leaves t).hashes
unfolding generate_zero_hash_proof zero_hash_root
generate-IsHash c laws leaves t a =
    let start : ZeroHashProof = record { collapsed = 0; hashes = [] } in
    (
      subtree_hash-IsHash c laws tree_depth leaves a,
      proof_rounds-lt c leaves t tree_depth start (omega arith) (omega arith),
      rw (proof_rounds-hashes c leaves t tree_depth start)
          (siblings-IsHash c laws leaves t tree_depth a),
    )

-- The proof that `generateZeroHashProof` makes for a leaf of the tree is accepted by
-- `verifyZeroHash` for that index, that leaf hash and the root of the tree, if indexes are below
-- 2^256 and no other leaf hash stands at that index.
pub verify_zero_hash-generate :
    {Text : Type 0} (c : Crypto Text)
    → CryptoLaws c
    → (leaves : List ZeroHashEntry) (e : ZeroHashEntry) → IsKeyed leaves e
    → verify_zero_hash c
        (generate_zero_hash_proof c leaves e.index).collapsed
        (generate_zero_hash_proof c leaves e.index).hashes
        e.index
        e.leaf
        (zero_hash_root c leaves)
      ≡ true
unfolding verify_zero_hash
verify_zero_hash-generate c laws leaves e k =
    let sized = length-zero_hash_root c laws leaves in
    rw (climb-generate c leaves e k, verify_zero_hash)
      ((hashes_equal_iff c laws _ _).1 (sized, refl))
