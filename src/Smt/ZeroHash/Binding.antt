-- ===== src/Smt/ZeroHash/Binding.antt =====
-- What a root of packages/smt/src/zero-hash.ts commits to.

use did_btcr2_js.Prelude.{
  In, all, if◌then◌else◌, subst, ℕ, zero, suc, ◌-◌, ◌≡◌, ◌≢◌, refl, sym, ap, ◌∙◌, inl, inr, ◌⊎◌,
  Bool, true, false, ◌&&◌, Option, none, some, List, [], ◌∷◌, ◌++◌, nat_beq, length, All, arith,
  Bool-cases,
}
use did_btcr2_js.Smt.Bits.{bit_at}
use did_btcr2_js.Smt.Hash.{Bytes, Crypto, CryptoLaws, hashes_equal}
use did_btcr2_js.Smt.Hash.Roundtrip.{hashes_equal_iff, length-block_hash, block_hash-pair}
use did_btcr2_js.Smt.ZeroHash.{tree_depth, cached_zero, join, climb, is_empty, verify_zero_hash}

abbrev pub AllHashes : List Bytes → Type 0
AllHashes = All (λ h. length h ≡ 32)

append_cancel : (a b a' b' : Bytes) → length a ≡ length a' → a ++ b ≡ a' ++ b' → (a ≡ a') × (b ≡ b')
append_cancel [] b [] b' n e = (refl, e)
append_cancel [] b (y ∷ a') b' n e = absurd (omega arith)
append_cancel (x ∷ a) b [] b' n e = absurd (omega arith)
append_cancel (x ∷ a) b (y ∷ a') b' n e =
    let (s, t) = append_cancel a b a' b' (omega arith) (ground arith) in (ground arith, t)

-- What one level of the climb gives to sha256: the sibling on the side that the index says.
abbrev pair_at : ℕ → ℕ → Bytes → Bytes → Bytes
pair_at t i s acc = if nat_beq (bit_at t i) 1 then s ++ acc else acc ++ s

-- The byte strings that `verifyZeroHash` gives to sha256 on the way up from a leaf hash: the sibling of
-- a level is the hash of an empty subtree where the bit of the bitmap is 1, and else the next hash of
-- the proof.
pub climb_inputs : {Text : Type 0} → Crypto Text → ℕ → ℕ → ℕ → Bytes → List Bytes → List Bytes
climb_inputs c zero col t acc hs = []
climb_inputs c (suc i) col t acc [] =
    let s = cached_zero c (tree_depth - 1 - i) in
    let above = climb_inputs c i col t (c.sha256 (pair_at t i s acc)) [] in
    if nat_beq (bit_at col i) 1 then pair_at t i s acc ∷ above else []
climb_inputs c (suc i) col t acc (h ∷ hs) =
    let s = cached_zero c (tree_depth - 1 - i) in
    let above = climb_inputs c i col t (c.sha256 (pair_at t i s acc)) (h ∷ hs) in
    let next = climb_inputs c i col t (c.sha256 (pair_at t i h acc)) hs in
    if nat_beq (bit_at col i) 1 then pair_at t i s acc ∷ above else pair_at t i h acc ∷ next

-- A string of the first list and one of the second that differ and have one hash.
abbrev pub CollisionIn : {Text : Type 0} → Crypto Text → List Bytes → List Bytes → Type 0
CollisionIn c xs ys =
    (x : Bytes) × (y : Bytes) × In x xs × In y ys × (x ≢ y) × (c.sha256 x ≡ c.sha256 y)

CollisionIn-later :
    {Text : Type 0} (c : Crypto Text) (x y : Bytes) (xs ys : List Bytes)
    → CollisionIn c xs ys
    → CollisionIn c (x ∷ xs) (y ∷ ys)
CollisionIn-later c x y xs ys (a, b, m, n, d, e) = (a, b, inr m, inr n, d, e)

module _ {Text : Type 0} (c : Crypto Text) (laws : CryptoLaws c) where
  -- Two strings of one hash are one string, or a collision.
  compare_inputs :
      (x y : Bytes) (xs ys : List Bytes)
      → c.sha256 x ≡ c.sha256 y
      → (x ≡ y) ⊎ CollisionIn c (x ∷ xs) (y ∷ ys)
  compare_inputs x y xs ys e = elim (Bool-cases (c.equal_bytes x y)) [
    | inl same ↦ inl ((laws.equal_iff x y).0 same)
    | inr other ↦ inr (x, y, inl refl, inl refl, distinct other, e)
  ]
    where
      distinct : c.equal_bytes x y ≡ false → x ≢ y
      distinct other s = ground (arith, (laws.equal_iff x y).1 s)

  join-pair_at : (t i : ℕ) (s acc : Bytes) → join c t i s acc ≡ c.sha256 (pair_at t i s acc)
  unfolding join
  join-pair_at t i s acc = elim (Bool-cases (nat_beq (bit_at t i) 1)) [
    | inl one ↦ rw one (block_hash-pair c laws s acc)
    | inr clear ↦ rw clear (block_hash-pair c laws acc s)
  ]

  pair_at-eq :
      (t i : ℕ) (s a s' a' : Bytes)
      → length s ≡ 32
      → length s' ≡ 32
      → length a ≡ 32
      → length a' ≡ 32
      → pair_at t i s a ≡ pair_at t i s' a'
      → a ≡ a'
  pair_at-eq t i s a s' a' m m' n n' e = elim (Bool-cases (nat_beq (bit_at t i) 1)) [
    | inl one ↦ (append_cancel s a s' a' (omega arith) (rw one at e)).1
    | inr clear ↦ (append_cancel a s a' s' (omega arith) (rw clear at e)).0
  ]

  length-join : (t i : ℕ) (s a : Bytes) → length (join c t i s a) ≡ 32
  unfolding join
  length-join t i s a =
      ground (arith, length-block_hash c laws (s ∷ a ∷ []), length-block_hash c laws (a ∷ s ∷ []))

  length-cached_zero : (h : ℕ) → length (cached_zero c h) ≡ 32
  unfolding cached_zero
  length-cached_zero zero = length-block_hash c laws _
  length-cached_zero (suc h) = length-block_hash c laws _

  -- One level of a climb that succeeds.
  climb-inv :
      (i col t : ℕ) (acc : Bytes) (hs : List Bytes) (r : Bytes) (rest : List Bytes)
      → AllHashes hs
      → climb c (suc i) col t acc hs ≡ some (r, rest)
      → (s : Bytes) × (hs' : List Bytes) × (length s ≡ 32)
        × AllHashes hs'
        × (climb c i col t (join c t i s acc) hs' ≡ some (r, rest))
        × (climb_inputs c (suc i) col t acc hs
            ≡ pair_at t i s acc ∷ climb_inputs c i col t (c.sha256 (pair_at t i s acc)) hs')
  unfolding climb climb_inputs
  climb-inv i col t acc hs r rest all e = elim (Bool-cases (nat_beq (bit_at col i) 1)) [
    | inl one ↦ (
      cached_zero c (tree_depth - 1 - i),
      hs,
      length-cached_zero _,
      all,
      rw (one, climb) at e,
      from_zero one hs,
    )
    | inr clear ↦ next clear hs all (rw (clear, climb) at e)
  ]
    where
      from_zero :
          nat_beq (bit_at col i) 1 ≡ true
          → (gs : List Bytes)
          → climb_inputs c (suc i) col t acc gs
            ≡ pair_at t i (cached_zero c (tree_depth - 1 - i)) acc
              ∷ climb_inputs c i col t
                  (c.sha256 (pair_at t i (cached_zero c (tree_depth - 1 - i)) acc))
                  gs
      from_zero one [] = rw one refl
      from_zero one (g ∷ gs) = rw one refl

      next :
          nat_beq (bit_at col i) 1 ≡ false
          → (gs : List Bytes) → AllHashes gs
          → elim gs as (λ _. Option (Bytes × List Bytes)) [
            | [] ↦ none
            | g ∷ gs' ↦ climb c i col t (join c t i g acc) gs'
          ]
            ≡ some (r, rest)
          → (s : Bytes) × (hs' : List Bytes) × (length s ≡ 32)
            × AllHashes hs'
            × (climb c i col t (join c t i s acc) hs' ≡ some (r, rest))
            × (climb_inputs c (suc i) col t acc gs
                ≡ pair_at t i s acc ∷ climb_inputs c i col t (c.sha256 (pair_at t i s acc)) hs')
      next clear [] a f = cc
      next clear (g ∷ gs) a f = (g, gs, a.0, a.1, f, rw clear refl)

  -- Two climbs of one path to one root start from one hash, or two of the strings that they hash
  -- collide.
  climb-binding :
      (n t : ℕ) (r : Bytes) (col col' : ℕ) (acc acc' : Bytes) (hs hs' rest rest' : List Bytes)
      → length acc ≡ 32
      → length acc' ≡ 32
      → AllHashes hs
      → AllHashes hs'
      → climb c n col t acc hs ≡ some (r, rest)
      → climb c n col' t acc' hs' ≡ some (r, rest')
      → (acc ≡ acc')
        ⊎ CollisionIn c (climb_inputs c n col t acc hs) (climb_inputs c n col' t acc' hs')
  climb-binding zero t r col col' acc acc' hs hs' rest rest' l l' a a' e e' =
      unfold climb in inl (ground arith)
  climb-binding (suc i) t r col col' acc acc' hs hs' rest rest' l l' a a' e e' =
      let (s, gs, m, b, f, p) = climb-inv i col t acc hs r rest a e in
      let (s', gs', m', b', f', p') = climb-inv i col' t acc' hs' r rest' a' e' in
      let x = pair_at t i s acc in
      let x' = pair_at t i s' acc' in
      let up = subst (λ q. climb c i col t q gs ≡ some (r, rest)) (join-pair_at t i s acc) f in
      let up' =
        subst (λ q. climb c i col' t q gs' ≡ some (r, rest')) (join-pair_at t i s' acc') f' in
      let size = sym (ap length (join-pair_at t i s acc)) ∙ length-join t i s acc in
      let size' = sym (ap length (join-pair_at t i s' acc')) ∙ length-join t i s' acc' in
      subst
        (λ (q : List Bytes).
          (acc ≡ acc') ⊎ CollisionIn c q (climb_inputs c (suc i) col' t acc' hs'))
        (sym p)
        (subst
          (λ (q : List Bytes).
            (acc ≡ acc') ⊎ CollisionIn c (x ∷ climb_inputs c i col t (c.sha256 x) gs) q)
          (sym p')
          (elim (climb-binding i t r col col' (c.sha256 x) (c.sha256 x') gs gs' rest rest' size
            size' b b' up up') [
              | inl q ↦
                  elim (compare_inputs x x' (climb_inputs c i col t (c.sha256 x) gs)
                    (climb_inputs c i col' t (c.sha256 x') gs') q) [
                      | inl same ↦ inl (pair_at-eq t i s acc s' acc' m m' l l' same)
                      | inr collision ↦ inr collision
                    ]
              | inr collision ↦ inr (CollisionIn-later c x x' _ _ collision)
            ]))

  verify-climb :
      (col t : ℕ) (hs : List Bytes) (cand root : Bytes)
      → verify_zero_hash c col hs t cand root ≡ true
      → (climb c tree_depth col t cand hs ≡ some (root, []))
  unfolding verify_zero_hash
  verify-climb col t hs cand root e = go (climb c tree_depth col t cand hs) refl e
    where
      go :
          (o : Option (Bytes × List Bytes))
          → climb c tree_depth col t cand hs ≡ o
          → elim o as (λ _. Bool) [
            | none ↦ false
            | some (acc, rest) ↦ is_empty rest && hashes_equal c acc root
          ]
            ≡ true
          → climb c tree_depth col t cand hs ≡ some (root, [])
      go none f h = cc
      go (some (acc, [])) f h =
          let q = (hashes_equal_iff c laws acc root).0 h in f ∙ ap (λ x. some (x, [])) q.1
      go (some (acc, g ∷ gs)) f h = cc

-- If `verifyZeroHash` accepts two 32-byte leaf hashes at one index under one root, with whatever
-- bitmaps and 32-byte sibling hashes, then they are equal, or one of the strings that the first call
-- gives to `sha256` on its way to the root and one of those of the second differ and have one hash.
pub verify_zero_hash-binding :
    {Text : Type 0} (c : Crypto Text)
    → CryptoLaws c
    → (index : ℕ) (root : Bytes) (col col' : ℕ) (hs hs' : List Bytes) (leaf leaf' : Bytes)
    → length leaf ≡ 32
    → length leaf' ≡ 32
    → AllHashes hs
    → AllHashes hs'
    → verify_zero_hash c col hs index leaf root ≡ true
    → verify_zero_hash c col' hs' index leaf' root ≡ true
    → (leaf ≡ leaf')
      ⊎ CollisionIn c
          (climb_inputs c tree_depth col index leaf hs)
          (climb_inputs c tree_depth col' index leaf' hs')
verify_zero_hash-binding c laws index root col col' hs hs' leaf leaf' l l' a a' e e' =
    climb-binding c laws tree_depth index root col col' leaf leaf' hs hs' [] [] l l' a a'
      (verify-climb c laws col index hs leaf root e)
      (verify-climb c laws col' index hs' leaf' root e')
