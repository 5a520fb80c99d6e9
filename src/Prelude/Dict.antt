-- ===== src/Prelude/Dict.antt =====
-- `Map` and `Set` of JavaScript: association lists in insertion order. Writing a key that is there
-- keeps its place; keys are compared by an instance of `Eq`.
use Prim.Native.Nat.{suc}
use mathlib.Core.Logic.{inl, inr}
use mathlib.Core.Path.{subst, sym, ◌≡◌, refl}
use mathlib.Core.Bool.{Bool}
use mathlib.Core.List.{List, [], ◌∷◌}
use mathlib.Core.Option.{Option, none, some}
use native.Mathlib.Omega.{arith}
use did_btcr2_js.Prelude.Tests.{Bool-cases, Eq, ◌==◌, if◌then◌else◌, is_some}
use did_btcr2_js.Prelude.Lists.{All, length, any}

abbrev pub Dict {ℓ κ} : Type ℓ → Type κ → Type (ℓ ⊔ κ)
Dict K V = List (K × V)

module _ {ℓ κ} {K : Type ℓ} {V : Type κ} ⦃e : Eq K⦄ where
  unfoldable pub get : K → Dict K V → Option V
  get k [] = none
  get k ((j, v) ∷ m) = if j == k then some v else get k m

  abbrev pub has : K → Dict K V → Bool
  has k m = is_some (get k m)

  unfoldable pub set : K → V → Dict K V → Dict K V
  set k v [] = (k, v) ∷ []
  set k v ((j, w) ∷ m) = if j == k then (j, v) ∷ m else (j, w) ∷ set k v m

  unfoldable pub delete : K → Dict K V → Dict K V
  delete k [] = []
  delete k ((j, w) ∷ m) = if j == k then delete k m else (j, w) ∷ delete k m

  pub get-set :
      (k j : K) (v : V) (m : Dict K V) → get j (set k v m) ≡ (if k == j then some v else get j m)
  unfolding get set
  get-set k j v [] = refl
  get-set k j v ((i, w) ∷ m) =
      ground (arith, e.beq_iff k j, e.beq_iff i k, e.beq_iff i j, get-set k j v m)

  pub get-delete :
      (k j : K) (m : Dict K V) → get j (delete k m) ≡ (if k == j then none else get j m)
  unfolding get delete
  get-delete k j [] = ground arith
  get-delete k j ((i, w) ∷ m) =
      ground (arith, e.beq_iff k j, e.beq_iff i k, e.beq_iff i j, get-delete k j m)

  pub length-set :
      (k : K) (v : V) (m : Dict K V)
      → length (set k v m) ≡ (if has k m then length m else suc (length m))
  unfolding get set
  length-set k v [] = refl
  length-set k v ((i, w) ∷ m) = ground (arith, length-set k v m)

module _ {K V : Type 0} ⦃e : Eq K⦄ where
  -- No key stands twice.
  abbrev pub Distinct : Dict K V → Type 0
  Distinct [] = Unit
  Distinct ((k, v) ∷ m) = (get k m ≡ none) × Distinct m

  pub Distinct-set : (k : K) (v : V) (m : Dict K V) → Distinct m → Distinct (set k v m)
  unfolding set get
  Distinct-set k v [] d = (refl, tt)
  Distinct-set k v ((j, w) ∷ m) d =
      ground (arith, get-set k j v m, e.beq_iff j k, e.beq_iff k j, Distinct-set k v m d.1)

  pub Distinct-delete : (k : K) (m : Dict K V) → Distinct m → Distinct (delete k m)
  unfolding delete get
  Distinct-delete k [] d = tt
  Distinct-delete k ((j, w) ∷ m) d =
      ground (arith, get-delete k j m, e.beq_iff j k, e.beq_iff k j, Distinct-delete k m d.1)

  pub All-set {μ} :
      (P : K × V → Type μ) (k : K) (v : V) (m : Dict K V) → All P m → P (k, v) → All P (set k v m)
  unfolding set
  All-set P k v [] a p = (p, tt)
  All-set P k v ((j, w) ∷ m) a p = elim (Bool-cases (j == k)) [
    | inl same ↦ rw same (subst (λ x. P (x, v)) (sym ((e.beq_iff j k).0 same)) p, a.1)
    | inr other ↦ rw other (a.0, All-set P k v m a.1 p)
  ]

  pub All-get {μ} :
      (P : K × V → Type μ) (k : K) (v : V) (m : Dict K V) → All P m → get k m ≡ some v → P (k, v)
  unfolding get
  All-get P k v [] a g = cc
  All-get P k v ((j, w) ∷ m) a g = elim (Bool-cases (j == k)) [
    | inl same ↦ pick ((e.beq_iff j k).0 same) (ground arith)
    | inr other ↦ All-get P k v m a.1 (rw (other, get) at g)
  ]
    where
      pick : j ≡ k → w ≡ v → P (k, v)
      pick p q = subst (λ x. P x) (λ i. (p i, q i)) a.0

-- `Array.includes` and `Set.has`
abbrev pub includes {ℓ} : {A : Type ℓ} ⦃e : Eq A⦄ → A → List A → Bool
includes a xs = any (λ x. x == a) xs

-- `Set.add`
unfoldable pub add {ℓ} : {A : Type ℓ} ⦃e : Eq A⦄ → A → List A → List A
add a [] = a ∷ []
add a (x ∷ xs) = if x == a then x ∷ xs else x ∷ add a xs
