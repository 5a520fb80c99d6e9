-- ===== src/Resolver/Machine/Soundness.antt =====
-- The document, version and history of the resolver through its phases and discovery rounds.
use did_btcr2_js.Resolver.Machine.{
  action_required, untouched_response, pass_apply, pass_complete, pass_discovery, pass_in,
  pass_once, pass_process, resolve, run, discover, over_limit, rediscover, settle_needs,
  take_progress, take_updates, ResolverPhase, apply_updates, beacon_discovery, beacon_process,
  complete, genesis_document, resolved, Pass, loops, yields, fails, Resolver, ResolverState,
}
use did_btcr2_js.Resolver.Updates.Chain.{updates-Reaches, Reaches, started}
use did_btcr2_js.Common.Json.{null, Json}
use did_btcr2_js.Resolver.Updates.{Announced, updates, Turn, continues, returns, throws, time_limit}
use did_btcr2_js.Prelude.{
  All, ap, from_option, nat_eq, none, string_eq, subst, suc, zero, Bool-cases, List, Option, [],
  inl, inr, refl, some, ℕ, ◌+◌, ◌∷◌, ◌≡◌,
}
use did_btcr2_js.Resolver.Types.{BeaconService, BeaconSignal, DataNeed, Env, ResolveError, Response}
use Prim.Native.String.{String}
use did_btcr2_js.Prelude.Result.{Result, err, ok}
use did_btcr2_js.Resolver.Provide.Told.{IsTold}
use did_btcr2_js.Resolver.Machine.Reached.{
  IsReached, move, process_entries-IsReached, take_progress-IsReached,
}

module _ (env : Env) (Told : BeaconService → BeaconSignal → Type 0) (origin : Json)
    (text : Option String) where
  -- A resolved answer is about the current document.
  abbrev pub Yields : Resolver → ResolverState → Type 0
  Yields r (action_required needs) = IsReached env Told origin text r
  Yields r (resolved a) = (h : IsReached env Told origin text r) × (a.did_document ≡ h.document)

  abbrev pub Lasts : Pass → Type 0
  Lasts (loops r) = IsReached env Told origin text r
  Lasts (yields r s) = Yields r s
  Lasts (fails r e) = Unit

  abbrev pub Outcome : Resolver × Result ResolveError ResolverState → Type 0
  Outcome (r, ok s) = Yields r s
  Outcome (r, err e) = Unit

  discover-Lasts :
      (r : Resolver) (x : Result ResolveError (List (BeaconService × String)))
      → IsReached env Told origin text r
      → Lasts (discover r x)
  unfolding discover
  discover-Lasts r (err e) h = tt
  discover-Lasts r (ok []) h = move env Told origin text r beacon_process (λ e. cc) h
  discover-Lasts r (ok (s ∷ rest)) h = h

  rediscover-Lasts :
      (r : Resolver) (x : Result ResolveError (List (BeaconService × String)))
      → IsReached env Told origin text r
      → Lasts (rediscover r x)
  unfolding rediscover
  rediscover-Lasts r (err e) h = tt
  rediscover-Lasts r (ok []) h = move env Told origin text r complete (λ e. cc) h
  rediscover-Lasts r (ok (s ∷ rest)) h =
      elim (Bool-cases (over_limit r.max_discovery_rounds (r.discovery_rounds + 1))) [
        | inl o ↦ rw o tt
        | inr o ↦ rw o (move env Told origin text r beacon_discovery (λ e. cc) h)
      ]

  settle_needs-Lasts :
      (x : Resolver × Result ResolveError (List DataNeed))
      → IsReached env Told origin text x.0
      → Lasts (settle_needs x)
  unfolding settle_needs
  settle_needs-Lasts (r, err e) h = tt
  settle_needs-Lasts (r, ok []) h = move env Told origin text r apply_updates (λ e. cc) h
  settle_needs-Lasts (r, ok (n ∷ ns)) h = h

  take_updates-Lasts :
      (r : Resolver) (h : IsReached env Told origin text r) (t : Turn)
      → Reaches env
          (IsTold env Told)
          (time_limit env r.version_time)
          (started env h.document r.current_version_id r.update_hash_history)
          t
      → Lasts (take_updates r t)
  unfolding take_updates
  take_updates-Lasts r h (continues q) c =
      rediscover-Lasts (take_progress r q) _ (take_progress-IsReached env Told origin text r h q c)
  take_updates-Lasts r h (returns q) c =
      rediscover-Lasts (take_progress r q) _ (take_progress-IsReached env Told origin text r h q c)
  take_updates-Lasts r h (throws hs e) c = tt

  pass_apply-Lasts : (r : Resolver) → IsReached env Told origin text r → Lasts (pass_apply env r)
  unfolding pass_apply
  pass_apply-Lasts r h = by_updates r.unsorted_updates h.waiting
    where
      by_updates :
          (xs : List Announced)
          → All (IsTold env Told) xs
          → Lasts (elim xs as (λ _. Pass) [
            | [] ↦ loops (record r { phase = complete })
            | a ∷ rest ↦ take_updates r (
                updates env
                  (from_option null r.current_document)
                  (a ∷ rest)
                  r.version_time
                  r.version_id
                  r.current_version_id
                  r.update_hash_history)
          ])
      by_updates [] waiting = move env Told origin text r complete (λ e. cc) h
      by_updates (a ∷ rest) waiting = take_updates-Lasts r h _ (
          subst
            (λ d.
              Reaches env (IsTold env Told) (time_limit env r.version_time)
                (started env d r.current_version_id r.update_hash_history)
                (updates env (from_option null r.current_document) (a ∷ rest) r.version_time
                  r.version_id r.current_version_id r.update_hash_history))
            (ap (from_option null) h.present)
            (updates-Reaches env (IsTold env Told) (from_option null r.current_document) (a ∷ rest)
              r.version_time r.version_id r.current_version_id r.update_hash_history waiting))

  pass_in-Lasts :
      (r : Resolver) (p : ResolverPhase)
      → r.phase ≡ p
      → IsReached env Told origin text r
      → Lasts (pass_in env r p)
  unfolding pass_in pass_discovery pass_process pass_complete
  pass_in-Lasts r genesis_document e h = absurd (h.past_genesis e)
  pass_in-Lasts r beacon_discovery e h = discover-Lasts r _ h
  pass_in-Lasts r beacon_process e h =
      settle_needs-Lasts _
        (process_entries-IsReached env Told origin text r.beacon_signals r [] h.told h)
  pass_in-Lasts r apply_updates e h = pass_apply-Lasts r h
  pass_in-Lasts r complete e h = (h, answer r.resolved_response refl)
    where
      answer :
          (x : Option Response)
          → r.resolved_response ≡ x
          → (from_option (untouched_response env r) x).did_document ≡ h.document
      answer none same = unfold untouched_response in ap (from_option null) h.present
      answer (some a) same = h.answered a same

  abbrev OutcomeOf : Option (Resolver × Result ResolveError ResolverState) → Type 0
  OutcomeOf none = Unit
  OutcomeOf (some out) = Outcome out

  run-Outcome : (n : ℕ) (r : Resolver) → IsReached env Told origin text r → OutcomeOf (run env n r)
  unfolding run pass_once
  run-Outcome zero r h = tt
  run-Outcome (suc n) r h =
      by_pass (pass_in env r r.phase) (pass_in-Lasts r r.phase refl h) (λ r'. run-Outcome n r')
    where
      by_pass :
          (p : Pass)
          → Lasts p
          → ((r' : Resolver) → IsReached env Told origin text r' → OutcomeOf (run env n r'))
          → OutcomeOf (elim p as (λ _. Option (Resolver × Result ResolveError ResolverState)) [
            | loops r' ↦ run env n r'
            | yields r' s ↦ some (r', ok s)
            | fails r' e ↦ some (r', err e)
          ])
      by_pass (loops r') l ih = ih r' l
      by_pass (yields r' s) l ih = l
      by_pass (fails r' e) l ih = tt

pub resolve-Yields :
    (env : Env) (Told : BeaconService → BeaconSignal → Type 0) (origin : Json)
    (text : Option String) (r r' : Resolver) (s : ResolverState)
    → IsReached env Told origin text r
    → resolve env r ≡ some (r', ok s)
    → Yields env Told origin text r' s
unfolding resolve
resolve-Yields env Told origin text r r' s h e =
    subst (OutcomeOf env Told origin text) e (run-Outcome env Told origin text 6 r h)
