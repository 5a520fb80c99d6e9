-- ===== src/Resolver/Updates/Limits.antt =====
-- The limit `versionId` of `Resolver.updates`.
use did_btcr2_js.Resolver.Types.{ResolveError, Env}
use did_btcr2_js.Prelude.{
  refl, ◌∙◌, Bool-cases, List, Option, [], arith, inl, inr, leb, nat_beq, some, subst, ℕ, ◌*◌, ◌+◌,
  ◌<◌, ◌∷◌, ◌≡◌, ◌≤◌,
}
use did_btcr2_js.Resolver.Updates.{
  start_response, Announced, Progress, Turn, advance, continues, next_document, over, returns,
  settle, sort_updates, throws, time_limit, touch, update_loop, update_turn, updates, version_limit,
}
use did_btcr2_js.Resolver.Updates.Chain.{started, Applies}
use did_btcr2_js.Prelude.Result.{Result, err, ok}
use did_btcr2_js.Common.Json.{Json}
use did_btcr2_js.Smt.Hash.{Bytes}
use did_btcr2_js.Resolver.Apply.{confirm_duplicate}
use Prim.Native.String.{String}
use did_btcr2_js.Common.Number.{below}
use did_btcr2_js.Resolver.Updates.Applied.{update_turn_of_Applies}

module _ (env : Env) (limit : Option ℕ) (n : ℕ) where
  abbrev Within : Turn → Type 0
  Within (continues q) = q.version < n
  Within (returns q) = q.version ≤ n
  Within (throws h e) = Unit

  settle-Within : (p : Progress) → p.version ≤ n → Within (settle env (some n) p)
  unfolding settle
  settle-Within p b = ground arith

  update_turn-Within :
      (p : Progress) (a : Announced) → p.version < n → Within (update_turn env limit (some n) p a)
  unfolding update_turn touch
  update_turn-Within p (u, b) h = elim (Bool-cases (leb u.target_version_id p.version)) [
    | inl e ↦ rw e (dup (confirm_duplicate env u p.history))
    | inr e ↦ rw e (elim (Bool-cases (over env limit (b.time * 1000))) [
      | inl f ↦ rw f (omega arith)
      | inr f ↦ rw f (elim (Bool-cases (nat_beq u.target_version_id (p.version + 1))) [
        | inl g ↦ rw g (next (next_document env (touch env p b) u))
        | inr g ↦ rw g tt
      ])
    ])
  ]
    where
      dup :
          (r : Result ResolveError (Unit {0}))
          → Within (elim r as (λ _. Turn) [
            | ok _ ↦ continues (touch env p b)
            | err e ↦ throws p.history e
          ])
      dup (ok t) = h
      dup (err e) = tt

      next :
          (r : Result ResolveError Json)
          → Within (elim r as (λ _. Turn) [
            | ok document ↦ settle env (some n) (advance env (touch env p b) u document)
            | err e ↦ throws p.history e
          ])
      next (ok d') = settle-Within _ (unfold advance in omega arith)
      next (err e) = tt

  abbrev Ends : Turn → Type 0
  Ends (continues q) = ⊥
  Ends (returns q) = q.version ≤ n
  Ends (throws h e) = Unit

  update_loop-Ends :
      (p : Progress) (xs : List Announced)
      → p.version < n
      → Ends (update_loop env limit (some n) p xs)
  unfolding update_loop
  update_loop-Ends p [] h = omega arith
  update_loop-Ends p (a ∷ rest) h =
      go (update_turn env limit (some n) p a) (update_turn-Within p a h)
        (λ q. update_loop-Ends q rest)
    where
      go :
          (t : Turn)
          → Within t
          → ((q : Progress) → q.version < n → Ends (update_loop env limit (some n) q rest))
          → Ends (elim t as (λ _. Turn) [
            | continues q ↦ update_loop env limit (some n) q rest
            | returns q ↦ returns q
            | throws history e ↦ throws history e
          ])
      go (continues q) w ih = ih q w
      go (returns q) w ih = w
      go (throws h e) w ih = tt

-- If `versionId` is a number above the version at which the loop starts, the version that
-- `Resolver.updates` returns is not above it.
pub updates-version-le :
    (env : Env) (d : Json) (unsorted : List Announced) (vt : Option String) (text : String)
    (n v : ℕ) (h : List Bytes) (q : Progress)
    → env.parse_number text ≡ some n
    → v < n
    → updates env d unsorted vt (some text) v h ≡ returns q
    → q.version ≤ n
unfolding updates version_limit
updates-version-le env d unsorted vt text n v h q parsed below e =
    subst (Ends env (time_limit env vt) n) (rw parsed at e)
      (update_loop-Ends env (time_limit env vt) n _ (sort_updates unsorted) below)

reached_returns :
    (env : Env) (n : ℕ) (p : Progress) → n ≤ p.version → settle env (some n) p ≡ returns p
unfolding settle
reached_returns env n p h = ground arith

update_loop_returns :
    (env : Env) (limit target : Option ℕ) (p q : Progress) (a : Announced) (rest : List Announced)
    → update_turn env limit target p a ≡ returns q
    → update_loop env limit target p (a ∷ rest) ≡ returns q
unfolding update_loop
update_loop_returns env limit target p q a rest e = rw (e, update_loop)

-- But at a version that is reached already the limit comes one update too late: if the first announced
-- update is the next version, in time and acceptable, it is applied, and the version returned is above
-- the `versionId` that was asked for.
pub updates_overshoot :
    (env : Env) (d d' : Json) (unsorted rest : List Announced) (a : Announced) (vt : Option String)
    (text : String) (n v : ℕ) (h : List Bytes)
    → env.parse_number text ≡ some n
    → n ≤ v
    → sort_updates unsorted ≡ a ∷ rest
    → Applies env (time_limit env vt) d v a d'
    → (q : Progress) × (updates env d unsorted vt (some text) v h ≡ returns q)
      × (q.version ≡ v + 1)
      × (n < q.version)
      × (q.response.did_document ≡ d')
unfolding updates version_limit start_response
updates_overshoot env d d' unsorted rest a vt text n v h parsed low sorted x =
    let p = started env d v h in
    let q = advance env (touch env p a.1) a.0 d' in
    let turn =
      update_turn_of_Applies env (time_limit env vt) (some n) p a d' x
      ∙ reached_returns env n q (unfold advance touch in omega arith) in
    (
      q,
      rw (parsed, sorted) (update_loop_returns env (time_limit env vt) (some n) p q a rest turn),
      unfold advance touch in refl,
      unfold advance touch in omega arith,
      unfold advance touch in refl,
    )
