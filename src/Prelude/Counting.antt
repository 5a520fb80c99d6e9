-- ===== src/Prelude/Counting.antt =====
-- Lists without repeats, counted: as many as the list that they come from, they are all of it.
use Prim.Native.Nat.{suc}
use did_btcr2_js.Prelude.{
  ◌||◌, All, Bool, Bool-cases, Eq, List, [], ap, arith, beq_refl, false, filter, inl, inr, length,
  nat_eq, refl, string_eq, true, ◌++◌, ◌==◌, ◌∙◌, ◌∷◌, ◌≡◌, ◌≤◌,
}
use did_btcr2_js.Prelude.Dict.{includes}

module _ {A : Type 0} ⦃e : Eq A⦄ where
  abbrev pub NoRepeat : List A → Type 0
  NoRepeat [] = Unit
  NoRepeat (x ∷ xs) = (includes x xs ≡ false) × NoRepeat xs

  count-le :
      (p q : A → Bool) (ys : List A)
      → ((y : A) → p y ≡ true → q y ≡ true)
      → length (filter p ys) ≤ length (filter q ys)
  count-le p q [] h = omega arith
  count-le p q (y ∷ ys) h = ground (arith, h y, count-le p q ys h)

  -- One more entry passes.
  count-suc :
      (a : A) (p q : A → Bool) (ys : List A)
      → includes a ys ≡ true
      → p a ≡ false
      → q a ≡ true
      → ((y : A) → p y ≡ true → q y ≡ true)
      → suc (length (filter p ys)) ≤ length (filter q ys)
  count-suc a p q [] i pa qa h = cc
  count-suc a p q (y ∷ ys) i pa qa h = elim (Bool-cases (y == a)) [
    | inl same ↦
        let at : y ≡ a = (e.beq_iff y a).0 same in
        let py : p y ≡ false = ap p at ∙ pa in
        let qy : q y ≡ true = ap q at ∙ qa in rw (py, qy) (omega (arith, count-le p q ys h))
    | inr differ ↦ ground (arith, h y, count-suc a p q ys (rw differ at i) pa qa h)
  ]

  length-le-count :
      (zs ys : List A)
      → NoRepeat zs
      → All (λ z. includes z ys ≡ true) zs
      → length zs ≤ length (filter (λ y. includes y zs) ys)
  length-le-count [] ys d h = omega arith
  length-le-count (z ∷ zs) ys d h =
      let one_more =
        count-suc z (λ y. includes y zs) (λ y. includes y (z ∷ zs)) ys h.0 d.0 self more in
      omega (arith, length-le-count zs ys d.1 h.1, one_more)
    where
      self : includes z (z ∷ zs) ≡ true
      self = rw (beq_refl z) refl

      more : (y : A) → includes y zs ≡ true → includes y (z ∷ zs) ≡ true
      more y m = ground (arith, m)

  length-filter-le : (p : A → Bool) (ys : List A) → length (filter p ys) ≤ length ys
  length-filter-le p [] = omega arith
  length-filter-le p (y ∷ ys) = ground (arith, length-filter-le p ys)

  full : (p : A → Bool) (ys : List A) → length ys ≤ length (filter p ys) → All (λ y. p y ≡ true) ys
  full p [] l = tt
  full p (y ∷ ys) l = elim (Bool-cases (p y)) [
    | inl yes_ ↦ (yes_, full p ys (ground (arith, rw yes_ at l)))
    | inr no_ ↦ absurd (omega (arith, length-filter-le p ys, rw no_ at l))
  ]

  -- A list without repeats of entries of `ys` that is as long as `ys` holds every entry of it.
  pub covers_all :
      (zs ys : List A)
      → NoRepeat zs
      → All (λ z. includes z ys ≡ true) zs
      → length ys ≤ length zs
      → All (λ y. includes y zs ≡ true) ys
  covers_all zs ys d h l =
      full (λ y. includes y zs) ys (omega (arith, l, length-le-count zs ys d h))

  pub includes-append_list :
      (a : A) (xs ys : List A) → includes a (xs ++ ys) ≡ (includes a xs || includes a ys)
  includes-append_list a [] ys = refl
  includes-append_list a (x ∷ xs) ys = ground (arith, includes-append_list a xs ys)

  pub NoRepeat-append :
      (xs ys : List A)
      → NoRepeat xs
      → NoRepeat ys
      → All (λ x. includes x ys ≡ false) xs
      → NoRepeat (xs ++ ys)
  NoRepeat-append [] ys d f h = f
  NoRepeat-append (x ∷ xs) ys d f h =
      (includes-append_list x xs ys ∙ ground (arith, d.0, h.0), NoRepeat-append xs ys d.1 f h.1)
