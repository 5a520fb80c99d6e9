-- ===== src/Prelude/Step.antt =====
-- Methods of a state machine: a state, a result or an exception, and the state afterwards, which
-- comes back after an exception too. Early returns and guards are combinators.
use mathlib.Core.Bool.{Bool, true, false}
use mathlib.Core.Option.{Option, none, some}
use mathlib.Core.Path.{◌≡◌, refl}
use did_btcr2_js.Prelude.Tests.{if◌then◌else◌}
use did_btcr2_js.Prelude.Result.{Result, ok, err}

abbrev pub Step : Type 0 → Type 0 → Type 0 → Type 0
Step E S A = S → Result E A × S

module _ {E S : Type 0} where
  -- `return`
  abbrev pub skip : Step E S (Unit {0})
  skip s = (ok tt, s)

  -- `if(!test) return`
  unfoldable pub when : Bool → Step E S (Unit {0}) → Step E S (Unit {0})
  when true step s = step s
  when false step s = skip s

  -- `if(!value) return`
  unfoldable pub when_some :
      {B : Type 0} → Option B → (B → Step E S (Unit {0})) → Step E S (Unit {0})
  when_some none step s = skip s
  when_some (some b) step s = step b s

  -- `if(!test) throw e`
  unfoldable pub need : {A : Type 0} → Bool → E → Step E S A → Step E S A
  need true e step s = step s
  need false e step s = (err e, s)

  -- `if(!value) throw e`
  unfoldable pub need_some : {A B : Type 0} → Option B → E → (B → Step E S A) → Step E S A
  need_some none e step s = (err e, s)
  need_some (some b) e step s = step b s

  -- A call that may throw, before what follows it.
  unfoldable pub call : {A B F : Type 0} → (F → E) → Result F B → (B → Step E S A) → Step E S A
  call wrap (err e) step s = (err (wrap e), s)
  call wrap (ok b) step s = step b s

  -- What holds at every end of a method holds of the method.
  pub when_ends :
      (P : Result E (Unit {0}) × S → Type 0) (b : Bool) (step : Step E S (Unit {0})) (s : S)
      → P (ok tt, s)
      → (b ≡ true → P (step s))
      → P (when b step s)
  unfolding when
  when_ends P true step s out h = h refl
  when_ends P false step s out h = out

  pub when_some_ends :
      {B : Type 0} (P : Result E (Unit {0}) × S → Type 0) (o : Option B)
      (step : B → Step E S (Unit {0})) (s : S)
      → P (ok tt, s)
      → ((b : B) → o ≡ some b → P (step b s))
      → P (when_some o step s)
  unfolding when_some
  when_some_ends P none step s out h = out
  when_some_ends P (some b) step s out h = h b refl

  pub need_ends :
      {A : Type 0} (P : Result E A × S → Type 0) (b : Bool) (e : E) (step : Step E S A) (s : S)
      → P (err e, s)
      → (b ≡ true → P (step s))
      → P (need b e step s)
  unfolding need
  need_ends P true e step s out h = h refl
  need_ends P false e step s out h = out

  pub need_some_ends :
      {A B : Type 0} (P : Result E A × S → Type 0) (o : Option B) (e : E) (step : B → Step E S A)
      (s : S)
      → P (err e, s)
      → ((b : B) → o ≡ some b → P (step b s))
      → P (need_some o e step s)
  unfolding need_some
  need_some_ends P none e step s out h = out
  need_some_ends P (some b) e step s out h = h b refl

  pub call_ends :
      {A B F : Type 0} (P : Result E A × S → Type 0) (wrap : F → E) (r : Result F B)
      (step : B → Step E S A) (s : S)
      → ((e : F) → P (err (wrap e), s))
      → ((b : B) → r ≡ ok b → P (step b s))
      → P (call wrap r step s)
  unfolding call
  call_ends P wrap (err e) step s out h = out e
  call_ends P wrap (ok b) step s out h = h b refl

  -- A method past a guard that lets it through.
  pub when-true :
      {b : Bool} (step : Step E S (Unit {0})) (s : S) → b ≡ true → when b step s ≡ step s
  unfolding when
  when-true step s e = rw e refl

  pub when_some-eq :
      {B : Type 0} {o : Option B} (step : B → Step E S (Unit {0})) (s : S) (b : B)
      → o ≡ some b
      → when_some o step s ≡ step b s
  unfolding when_some
  when_some-eq step s b e = rw e refl

  pub call-ok :
      {A B F : Type 0} (wrap : F → E) {r : Result F B} (step : B → Step E S A) (s : S) (b : B)
      → r ≡ ok b
      → call wrap r step s ≡ step b s
  unfolding call
  call-ok wrap step s b p = rw p refl

-- What holds of both branches.
pub if_ends {ℓ} :
    {A : Type ℓ} (P : A → Type 0) (b : Bool) {x y : A} → P x → P y → P (if b then x else y)
if_ends P true px py = px
if_ends P false px py = py
