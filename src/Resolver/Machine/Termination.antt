-- ===== src/Resolver/Machine/Termination.antt =====
-- The passes through the loop of `resolve`, counted by the phase they start in.
use did_btcr2_js.Resolver.Types.{need_genesis_document, DataNeed, BeaconService, ResolveError, Env}
use did_btcr2_js.Prelude.{
  subst, sym, none, from_option, Bool-cases, List, Option, [], inl, inr, refl, some, suc, ℕ, ◌+◌,
  ◌∷◌, ◌≡◌,
}
use did_btcr2_js.Resolver.Machine.{
  pass_in, ResolverPhase, discover, external, genesis_document, pass_genesis, resolve, settle_needs,
  take_genesis, take_updates, action_required, apply_updates, beacon_process, over_limit,
  pass_apply, pass_process, services_of, take_progress, Pass, Resolver, ResolverState,
  beacon_discovery, complete, fails, loops, new_services, pass_complete, pass_discovery, pass_once,
  rediscover, run, yields,
}
use did_btcr2_js.Prelude.Result.{Result, err, ok}
use Prim.Native.String.{String}
use did_btcr2_js.Resolver.Updates.{Announced, Turn, continues, returns, throws, updates}
use did_btcr2_js.Common.Json.{Json, null}

module _ (env : Env) where
  abbrev Halts : ℕ → Resolver → Type 0
  Halts n r = (out : Resolver × Result ResolveError ResolverState) × (run env n r ≡ some out)

  -- After a pass that loops, the next state has to halt.
  abbrev HaltsAfter : ℕ → Pass → Type 0
  HaltsAfter n (loops r) = Halts n r
  HaltsAfter n (yields r s) = Unit
  HaltsAfter n (fails r e) = Unit

  Halts-suc : (n : ℕ) (r : Resolver) → HaltsAfter n (pass_once env r) → Halts (suc n) r
  unfolding run
  Halts-suc n r h = go (pass_once env r) h
    where
      go :
          (p : Pass)
          → HaltsAfter n p
          → (out : Resolver × Result ResolveError ResolverState) × (elim p
                as (λ _. Option (Resolver × Result ResolveError ResolverState)) [
                  | loops r' ↦ run env n r'
                  | yields r' s ↦ some (r', ok s)
                  | fails r' e ↦ some (r', err e)
                ]
              ≡ some out)
      go (loops r') k = k
      go (yields r' s) k = ((r', ok s), refl)
      go (fails r' e) k = ((r', err e), refl)

  -- The same, by the phase that the state is in.
  Halts-suc_at :
      (n : ℕ) (r : Resolver) (p : ResolverPhase)
      → r.phase ≡ p
      → HaltsAfter n (pass_in env r p)
      → Halts (suc n) r
  unfolding pass_once
  Halts-suc_at n r p e h = Halts-suc n r (subst (λ q. HaltsAfter n (pass_in env r q)) (sym e) h)

  complete-Halts : (n : ℕ) (r : Resolver) → r.phase ≡ complete → Halts (suc n) r
  unfolding pass_in pass_complete
  complete-Halts n r e = Halts-suc_at n r complete e tt

  discovery_new-Halts :
      (n : ℕ) (r : Resolver) (s : BeaconService × String) (rest : List (BeaconService × String))
      → r.phase ≡ beacon_discovery
      → new_services r.request_cache (services_of r) ≡ ok (s ∷ rest)
      → Halts (suc n) r
  unfolding pass_in pass_discovery discover
  discovery_new-Halts n r s rest p e = Halts-suc_at n r beacon_discovery p (rw e tt)

  rediscover-Halts :
      (n : ℕ) (r : Resolver) (x : Result ResolveError (List (BeaconService × String)))
      → new_services r.request_cache (services_of r) ≡ x
      → HaltsAfter (suc n) (rediscover r x)
  unfolding rediscover
  rediscover-Halts n r (err e) h = tt
  rediscover-Halts n r (ok []) h = complete-Halts n _ refl
  rediscover-Halts n r (ok (s ∷ rest)) h =
      elim (Bool-cases (over_limit r.max_discovery_rounds (r.discovery_rounds + 1))) [
        | inl o ↦ rw o tt
        | inr o ↦ rw o (discovery_new-Halts n _ s rest refl h)
      ]

  take_updates-Halts : (n : ℕ) (r : Resolver) (t : Turn) → HaltsAfter (suc n) (take_updates r t)
  unfolding take_updates take_progress
  take_updates-Halts n r (continues q) = rediscover-Halts n (take_progress r q) _ refl
  take_updates-Halts n r (returns q) = rediscover-Halts n (take_progress r q) _ refl
  take_updates-Halts n r (throws h e) = tt

  apply-Halts : (n : ℕ) (r : Resolver) → r.phase ≡ apply_updates → Halts (suc (suc n)) r
  unfolding pass_in pass_apply
  apply-Halts n r p = Halts-suc_at (suc n) r apply_updates p (go r.unsorted_updates)
    where
      go :
          (xs : List Announced)
          → HaltsAfter (suc n) (elim xs as (λ _. Pass) [
            | [] ↦ loops (record r { phase = complete })
            | a ∷ rest ↦ take_updates r (
                updates env
                  (from_option null r.current_document)
                  (a ∷ rest)
                  r.version_time
                  r.version_id
                  r.current_version_id
                  r.update_hash_history)
          ])
      go [] = complete-Halts n _ refl
      go (a ∷ rest) = take_updates-Halts n r _

  settle_needs-Halts :
      (n : ℕ) (x : Resolver × Result ResolveError (List DataNeed))
      → HaltsAfter (suc (suc n)) (settle_needs x)
  unfolding settle_needs
  settle_needs-Halts n (r, err e) = tt
  settle_needs-Halts n (r, ok []) = apply-Halts n _ refl
  settle_needs-Halts n (r, ok (k ∷ ks)) = tt

  process-Halts : (n : ℕ) (r : Resolver) → r.phase ≡ beacon_process → Halts (suc (suc (suc n))) r
  unfolding pass_in pass_process
  process-Halts n r p = Halts-suc_at (suc (suc n)) r beacon_process p (settle_needs-Halts n _)

  discover-Halts :
      (n : ℕ) (r : Resolver) (x : Result ResolveError (List (BeaconService × String)))
      → HaltsAfter (suc (suc (suc n))) (discover r x)
  unfolding discover
  discover-Halts n r (err e) = tt
  discover-Halts n r (ok []) = process-Halts n _ refl
  discover-Halts n r (ok (s ∷ rest)) = tt

  discovery-Halts :
      (n : ℕ) (r : Resolver) → r.phase ≡ beacon_discovery → Halts (suc (suc (suc (suc n)))) r
  unfolding pass_in pass_discovery
  discovery-Halts n r p =
      Halts-suc_at (suc (suc (suc n))) r beacon_discovery p (discover-Halts n r _)

  take_genesis-Halts :
      (n : ℕ) (r : Resolver) (x : Result ResolveError Json)
      → HaltsAfter (suc (suc (suc (suc n)))) (take_genesis r x)
  unfolding take_genesis
  take_genesis-Halts n r (err e) = tt
  take_genesis-Halts n r (ok d) = discovery-Halts n _ refl

  genesis-Halts :
      (n : ℕ) (r : Resolver) → r.phase ≡ genesis_document → Halts (suc (suc (suc (suc (suc n))))) r
  unfolding pass_in pass_genesis
  genesis-Halts n r p =
      Halts-suc_at (suc (suc (suc (suc n)))) r genesis_document p (go r.provided_genesis)
    where
      go :
          (x : Option Json)
          → HaltsAfter (suc (suc (suc (suc n)))) (elim x as (λ _. Pass) [
            | none ↦
                yields r
                  (action_required (need_genesis_document (env.encode_hex r.genesis_bytes) ∷ []))
            | some genesis ↦ take_genesis r (external env r.did r.genesis_bytes genesis)
          ])
      go none = tt
      go (some g) = take_genesis-Halts n r _

  resolve-Halts : (p : ResolverPhase) (r : Resolver) → r.phase ≡ p → Halts 6 r
  resolve-Halts genesis_document r e = genesis-Halts 1 r e
  resolve-Halts beacon_discovery r e = discovery-Halts 2 r e
  resolve-Halts beacon_process r e = process-Halts 3 r e
  resolve-Halts apply_updates r e = apply-Halts 4 r e
  resolve-Halts complete r e = complete-Halts 5 r e

-- `resolve` always comes to an answer, whatever the state: it asks for data, gives the resolved
-- document, or throws.
pub resolve_answers :
    (env : Env) (r : Resolver)
    → (out : Resolver × Result ResolveError ResolverState) × (resolve env r ≡ some out)
unfolding resolve
resolve_answers env r = resolve-Halts env r.phase r refl
