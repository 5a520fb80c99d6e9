-- ===== src/Smt/ZeroHash/Rounds.antt =====
-- The rounds of `generateZeroHashProof` and of `verifyZeroHash`, beside a plain recursion that lists
-- the siblings of a path.
use did_btcr2_js.Prelude.{
  All, All-append, All-filter, Bool-cases, inl, inr, ◌^◌, ℕ, zero, suc, ◌+◌, ◌-◌, ◌<◌, ◌≤◌, ◌≡◌,
  ◌≢◌, refl, sym, ap, ◌∙◌, Bool, true, false, some, List, [], ◌∷◌, ◌++◌, nat_beq, if◌then◌else◌,
  arith,
}
use native.Mathlib.Decide.{ℕ_discrete}
use mathlib.Core.List.{append_assoc, append-nil}
use did_btcr2_js.Smt.Bits.{set_bit-lt, bit_at, set_bit, bit_at-set_bit_self, bit_at-set_bit_ne}
use did_btcr2_js.Smt.Hash.Roundtrip.{block_hash-IsHash}
use did_btcr2_js.Smt.Hash.{IsHash, CryptoLaws, Bytes, Crypto}
use did_btcr2_js.Smt.ZeroHash.Paths.{path_leaves, subtree_hash-join}
use did_btcr2_js.Smt.ZeroHash.{
  cached_zero, ZeroHashEntry, ZeroHashProof, tree_depth, sibling_leaves, subtree_hash, proof_round,
  proof_rounds, join, climb,
}

abbrev pub is_nil : List ZeroHashEntry → Bool
is_nil [] = true
is_nil (e ∷ es) = false

-- A bitmap fits the leaves below bit n: a bit is set exactly where the sibling is empty.
abbrev pub Fits : List ZeroHashEntry → ℕ → ℕ → ℕ → Type 0
Fits leaves t n bitmap =
    (j : ℕ) → j < n → nat_beq (bit_at bitmap j) 1 ≡ is_nil (sibling_leaves leaves t j)

-- No bit below n is set yet.
abbrev pub ClearBelow : ℕ → ℕ → Type 0
ClearBelow n bitmap = (j : ℕ) → j < n → bit_at bitmap j ≡ 0

module _ {Text : Type 0} (c : Crypto Text) (leaves : List ZeroHashEntry) (t : ℕ) where
  -- The real siblings below bit n, in the order in which both loops meet them.
  pub sibling_of : ℕ → List ZeroHashEntry → List Bytes
  sibling_of i [] = []
  sibling_of i (e ∷ es) = subtree_hash c (tree_depth - i - 1) (e ∷ es) ∷ []

  pub siblings : ℕ → List Bytes
  siblings zero = []
  siblings (suc i) = sibling_of i (sibling_leaves leaves t i) ++ siblings i

  proof_round-hashes :
      (i : ℕ) (p : ZeroHashProof) (xs : List ZeroHashEntry)
      → sibling_leaves leaves t i ≡ xs
      → (proof_round c leaves t i p).hashes ≡ p.hashes ++ sibling_of i xs
  unfolding proof_round sibling_of
  proof_round-hashes i p [] e = rw (e, proof_round) (sym (append-nil p.hashes))
  proof_round-hashes i p (x ∷ xs) e = rw (e, proof_round)

  proof_round-collapsed :
      (i : ℕ) (p : ZeroHashProof) (xs : List ZeroHashEntry)
      → sibling_leaves leaves t i ≡ xs
      → (proof_round c leaves t i p).collapsed
        ≡ (if is_nil xs then set_bit p.collapsed i else p.collapsed)
  unfolding proof_round
  proof_round-collapsed i p [] e = rw (e, proof_round)
  proof_round-collapsed i p (x ∷ xs) e = rw (e, proof_round)

  pub proof_rounds-hashes :
      (n : ℕ) (p : ZeroHashProof) → (proof_rounds c leaves t n p).hashes ≡ p.hashes ++ siblings n
  unfolding proof_rounds siblings
  proof_rounds-hashes zero p = sym (append-nil p.hashes)
  proof_rounds-hashes (suc i) p =
      proof_rounds-hashes i (proof_round c leaves t i p)
      ∙ ap (λ hs. hs ++ siblings i) (proof_round-hashes i p _ refl)
      ∙ append_assoc p.hashes _ _

  -- Rounds below n leave the bits from n on alone.
  proof_rounds-keeps :
      (n j : ℕ) (p : ZeroHashProof)
      → n ≤ j
      → bit_at (proof_rounds c leaves t n p).collapsed j ≡ bit_at p.collapsed j
  unfolding proof_rounds
  proof_rounds-keeps zero j p h = refl
  proof_rounds-keeps (suc i) j p h =
      let rest = proof_rounds-keeps i j (proof_round c leaves t i p) (omega arith) in
      let now = proof_round-collapsed i p (sibling_leaves leaves t i) refl in
      let d : i ≢ j = omega arith in ground (arith, rest, now, bit_at-set_bit_ne p.collapsed i j d)

  proof_round-Clear :
      (i : ℕ) (p : ZeroHashProof)
      → ClearBelow (suc i) p.collapsed
      → ClearBelow i (proof_round c leaves t i p).collapsed
  proof_round-Clear i p h j b =
      let now = proof_round-collapsed i p (sibling_leaves leaves t i) refl in
      let d : i ≢ j = omega arith in
      ground (arith, now, bit_at-set_bit_ne p.collapsed i j d, h j (omega arith))

  proof_round-bit :
      (i : ℕ) (p : ZeroHashProof)
      → bit_at p.collapsed i ≡ 0
      → nat_beq (bit_at (proof_round c leaves t i p).collapsed i) 1
        ≡ is_nil (sibling_leaves leaves t i)
  proof_round-bit i p h =
      let now = proof_round-collapsed i p (sibling_leaves leaves t i) refl in
      ground (arith, now, bit_at-set_bit_self p.collapsed i, h)

  pub proof_rounds-Fits :
      (n : ℕ) (p : ZeroHashProof)
      → ClearBelow n p.collapsed
      → Fits leaves t n (proof_rounds c leaves t n p).collapsed
  unfolding proof_rounds
  proof_rounds-Fits zero p h j b = elim b [ ]
  proof_rounds-Fits (suc i) p h j b = elim (ℕ_discrete j i) [
    | yes same ↦
        rw (same, proof_rounds-keeps i i (proof_round c leaves t i p) (omega arith))
          (proof_round-bit i p (h i (omega arith)))
    | no other ↦
        proof_rounds-Fits i (proof_round c leaves t i p) (proof_round-Clear i p h) j (omega arith)
  ]

  climb-sibling :
      (i bitmap : ℕ) (acc : Bytes) (rest : List Bytes) (xs : List ZeroHashEntry)
      → nat_beq (bit_at bitmap i) 1 ≡ is_nil xs
      → climb c (suc i) bitmap t acc (sibling_of i xs ++ rest)
        ≡ climb c i bitmap t (join c t i (subtree_hash c (tree_depth - 1 - i) xs) acc) rest
  unfolding climb sibling_of subtree_hash
  climb-sibling i bitmap acc rest [] e = rw (e, climb)
  climb-sibling i bitmap acc rest (x ∷ xs) e =
      rw (e, climb)
        (ap (λ k. climb c i bitmap t (join c t i (subtree_hash c k (x ∷ xs)) acc) rest)
          (omega arith))

  -- From the subtree at bit n the climb reaches the root, taking the siblings below n.
  pub climb-siblings :
      (n h bitmap : ℕ)
      → h + n ≡ tree_depth
      → Fits leaves t n bitmap
      → ((i : ℕ) → path_leaves leaves t i ≢ [])
      → climb c n bitmap t (subtree_hash c h (path_leaves leaves t n)) (siblings n)
        ≡ some (subtree_hash c tree_depth (path_leaves leaves t 0), [])
  unfolding siblings
  climb-siblings zero h bitmap e fits n =
      let top : h ≡ tree_depth = omega arith in
      unfold climb in ap (λ k. some (subtree_hash c k (path_leaves leaves t 0), [])) top
  climb-siblings (suc i) h bitmap e fits n =
      let xs = sibling_leaves leaves t i in
      let acc = subtree_hash c h (path_leaves leaves t (suc i)) in
      let level : tree_depth - 1 - i ≡ h = omega arith in
      let joined = subtree_hash-join c leaves t h i e (n i) in
      climb-sibling i bitmap acc (siblings i) xs (fits i (omega arith))
      ∙ ap (λ k. climb c i bitmap t (join c t i (subtree_hash c k xs) acc) (siblings i)) level
      ∙ ap (λ a. climb c i bitmap t a (siblings i)) (sym joined)
      ∙ climb-siblings i (suc h) bitmap (omega arith) (λ j b. fits j (omega arith)) n

  proof_round-lt :
      (i : ℕ) (p : ZeroHashProof)
      → i < tree_depth
      → p.collapsed < 2 ^ 256
      → (proof_round c leaves t i p).collapsed < 2 ^ 256
  proof_round-lt i p b h =
      let now = proof_round-collapsed i p (sibling_leaves leaves t i) refl in
      let below = set_bit-lt p.collapsed i 256 b h in
      elim (Bool-cases (is_nil (sibling_leaves leaves t i))) [
        | inl e ↦ rw (now, e) below
        | inr e ↦ rw (now, e) h
      ]

  -- A generated bitmap has 256 bits.
  pub proof_rounds-lt :
      (n : ℕ) (p : ZeroHashProof)
      → n ≤ tree_depth
      → p.collapsed < 2 ^ 256
      → (proof_rounds c leaves t n p).collapsed < 2 ^ 256
  unfolding proof_rounds
  proof_rounds-lt zero p b h = h
  proof_rounds-lt (suc i) p b h =
      proof_rounds-lt i (proof_round c leaves t i p) (omega arith) (proof_round-lt i p b h)

module _ {Text : Type 0} (c : Crypto Text) (laws : CryptoLaws c) where
  -- Where the leaf hashes are 32 bytes, so is the hash of every subtree.
  pub subtree_hash-IsHash :
      (h : ℕ) (xs : List ZeroHashEntry) → All (λ x. IsHash x.leaf) xs → IsHash (subtree_hash c h xs)
  unfolding subtree_hash cached_zero
  subtree_hash-IsHash zero [] a = block_hash-IsHash c laws _
  subtree_hash-IsHash (suc h) [] a = block_hash-IsHash c laws _
  subtree_hash-IsHash zero (x ∷ xs) a = a.0
  subtree_hash-IsHash (suc h) (x ∷ xs) a = block_hash-IsHash c laws _

  sibling_of-IsHash :
      (leaves : List ZeroHashEntry) (t i : ℕ) (xs : List ZeroHashEntry)
      → All (λ x. IsHash x.leaf) xs
      → All IsHash (sibling_of c leaves t i xs)
  unfolding sibling_of
  sibling_of-IsHash leaves t i [] a = tt
  sibling_of-IsHash leaves t i (x ∷ xs) a = (subtree_hash-IsHash _ (x ∷ xs) a, tt)

  pub siblings-IsHash :
      (leaves : List ZeroHashEntry) (t n : ℕ)
      → All (λ x. IsHash x.leaf) leaves
      → All IsHash (siblings c leaves t n)
  unfolding siblings sibling_leaves
  siblings-IsHash leaves t zero a = tt
  siblings-IsHash leaves t (suc i) a =
      All-append IsHash (sibling_of c leaves t i (sibling_leaves leaves t i)) _
        (sibling_of-IsHash leaves t i _ (All-filter (λ x. IsHash x.leaf) _ leaves a))
        (siblings-IsHash leaves t i a)
