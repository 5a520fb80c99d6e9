-- ===== src/Prelude/Sets.antt =====
-- Laws of `includes` and `add`, and of `set` beside them.
use did_btcr2_js.Prelude.Tests.{Bool-cases}
use did_btcr2_js.Prelude.Dict.{add, get, get-set, includes, set, Dict}
use did_btcr2_js.Prelude.{
  Eq, List, [], arith, beq_refl, false, if◌then◌else◌, inl, inr, length, nat_eq, refl, some,
  string_eq, subst, suc, sym, true, ◌++◌, ◌==◌, ◌||◌, ◌∙◌, ◌∷◌, ◌≡◌,
}

module _ {A : Type 0} ⦃e : Eq A⦄ where
  pub add-fresh : (a : A) (xs : List A) → includes a xs ≡ false → add a xs ≡ xs ++ a ∷ []
  unfolding add
  add-fresh a [] h = refl
  add-fresh a (x ∷ xs) h = ground (arith, add-fresh a xs)

  pub includes-append :
      (a b : A) (xs : List A) → includes b (xs ++ a ∷ []) ≡ (includes b xs || (a == b))
  includes-append a b [] = ground arith
  includes-append a b (x ∷ xs) = ground (arith, includes-append a b xs)

  pub includes-add : (a b : A) (xs : List A) → includes b (add a xs) ≡ (includes b xs || (a == b))
  unfolding add
  includes-add a b [] = ground arith
  includes-add a b (x ∷ xs) =
      ground (arith, includes-add a b xs, e.beq_iff x a, e.beq_iff x b, e.beq_iff a b)

  pub includes-ne :
      (a b : A) (xs : List A) → includes a xs ≡ false → includes b xs ≡ true → (a == b) ≡ false
  includes-ne a b xs absent there = elim (Bool-cases (a == b)) [
    | inr differ ↦ differ
    | inl same ↦
        let there' : includes a xs ≡ true =
          subst (λ x. includes x xs ≡ true) (sym ((e.beq_iff a b).0 same)) there in
        cc (absent, there')
  ]

  pub length-add :
      (a : A) (xs : List A)
      → length (add a xs) ≡ (if includes a xs then length xs else suc (length xs))
  unfolding add
  length-add a [] = refl
  length-add a (x ∷ xs) = ground (arith, length-add a xs)

  module _ {V : Type 0} where
    pub get-set_other :
        (a b : A) (v : V) (m : Dict A V) → (a == b) ≡ false → get b (set a v m) ≡ get b m
    get-set_other a b v m h = get-set a b v m ∙ rw h refl

    pub get-set_self : (a : A) (v : V) (m : Dict A V) → get a (set a v m) ≡ some v
    get-set_self a v m = get-set a a v m ∙ rw (beq_refl a) refl
