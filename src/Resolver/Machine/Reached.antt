-- ===== src/Resolver/Machine/Reached.antt =====
-- What the resolver keeps of its document, version and history through the phases.
use did_btcr2_js.Prelude.Result.{Holds, Result, err, ok}
use did_btcr2_js.Resolver.Updates.{Announced, Progress, start_response, time_limit}
use did_btcr2_js.Common.Json.{Json}
use did_btcr2_js.Prelude.{
  All, All-append, Bool, List, Option, [], arith, false, if◌then◌else◌, nat_eq, refl, some,
  string_eq, true, ℕ, ◌++◌, ◌∷◌, ◌≡◌, ◌≢◌,
}
use did_btcr2_js.Resolver.Machine.{
  Resolver, ResolverPhase, continue_with, genesis_document, keep_result, process_entries,
  process_entry, take_progress, take_result,
}
use did_btcr2_js.Resolver.Beacons.{BeaconProcessResult, process_signals}
use did_btcr2_js.Resolver.Updates.Chain.{Chain, ChainTo, started, trans}
use did_btcr2_js.Resolver.Types.{
  BeaconService, BeaconSignal, DataNeed, Env, ResolveError, Response, SidecarData,
}
use did_btcr2_js.Resolver.Provide.Told.{IsTold, process_signals-IsTold}
use Prim.Native.String.{String}
use did_btcr2_js.Prelude.Dict.{Dict, includes}
use did_btcr2_js.Smt.Hash.{Bytes}
use did_btcr2_js.Resolver.Provide.Commitments.{IsCommitted}

-- The current document ends a chain from `origin` of updates that the given signals announce, with the
-- version and the history that the state carries, and the updates that wait are announced as well; the
-- signals are given ones, and the sidecar data stands under its hashes; a response that is there is about that document; the genesis phase is over.
pub record IsReachedAt (env : Env) (Told : BeaconService → BeaconSignal → Type 0) (origin : Json)
    (text vt : Option String) (current : Option Json) (version : ℕ) (history : List Bytes)
    (response : Option Response) (phase : ResolverPhase) (sidecar : SidecarData)
    (unsorted : List Announced) (signals : Dict ℕ (BeaconService × List BeaconSignal))
    : Type 0 where
  pub document : Json
  pub present : current ≡ some document
  pub chain : Chain env (IsTold env Told) (time_limit env vt) origin 1 [] document version history
  pub answered : (a : Response) → response ≡ some a → a.did_document ≡ document
  pub timed : vt ≡ text
  pub past_genesis : phase ≢ genesis_document
  pub committed : IsCommitted env sidecar
  pub waiting : All (IsTold env Told) unsorted
  pub told : All (λ x. All (Told x.1.0) x.1.1) signals

abbrev pub IsReached :
    Env → (BeaconService → BeaconSignal → Type 0) → Json → Option String → Resolver → Type 0
IsReached env Told origin text r =
    IsReachedAt env Told origin text r.version_time r.current_document r.current_version_id
      r.update_hash_history r.resolved_response r.phase r.sidecar r.unsorted_updates
      r.beacon_signals

module _ (env : Env) (Told : BeaconService → BeaconSignal → Type 0) (origin : Json)
    (text : Option String) where
  pub move :
      (r : Resolver) (p : ResolverPhase)
      → p ≢ genesis_document
      → IsReached env Told origin text r
      → IsReachedAt env Told origin text r.version_time r.current_document r.current_version_id
          r.update_hash_history r.resolved_response p r.sidecar r.unsorted_updates r.beacon_signals
  move r p n h = record {
    document = h.document;
    present = h.present;
    chain = h.chain;
    answered = h.answered;
    timed = h.timed;
    past_genesis = n;
    committed = h.committed;
    waiting = h.waiting;
    told = h.told;
  }

  pub keep_result-IsReached :
      (r : Resolver) (service : BeaconService) (result : BeaconProcessResult)
      (needs : List DataNeed)
      → All (IsTold env Told) result.updates
      → IsReached env Told origin text r
      → IsReached env Told origin text (keep_result r service result needs).0
  unfolding keep_result
  keep_result-IsReached r service result [] k h = record {
    document = h.document;
    present = h.present;
    chain = h.chain;
    answered = h.answered;
    timed = h.timed;
    past_genesis = h.past_genesis;
    committed = h.committed;
    waiting = All-append (IsTold env Told) r.unsorted_updates result.updates h.waiting k;
    told = h.told;
  }
  keep_result-IsReached r service result (n ∷ ns) k h = h

  pub take_result-IsReached :
      (r : Resolver) (service : BeaconService) (x : Result ResolveError BeaconProcessResult)
      → Holds (λ result. All (IsTold env Told) result.updates) x
      → IsReached env Told origin text r
      → IsReached env Told origin text (take_result r service x).0
  unfolding take_result
  take_result-IsReached r service (err e) k h = h
  take_result-IsReached r service (ok result) k h =
      keep_result-IsReached r service result result.needs k h

  abbrev pub Carries : Resolver × Result ResolveError (List DataNeed) → Type 0
  Carries x = IsReached env Told origin text x.0

  pub process_entry-IsReached :
      (r : Resolver) (service : BeaconService) (signals : List BeaconSignal)
      → All (Told service) signals
      → IsReached env Told origin text r
      → Carries (process_entry env r service signals)
  unfolding process_entry
  process_entry-IsReached r service [] told h = h
  process_entry-IsReached r service (s ∷ signals) told h =
      by_test (includes service.id r.processed_services)
    where
      by_test :
          (b : Bool)
          → Carries (
              if b
              then (r, ok [])
              else take_result r service (process_signals env r.sidecar service (s ∷ signals)))
      by_test true = h
      by_test false =
          take_result-IsReached r service (process_signals env r.sidecar service (s ∷ signals))
            (process_signals-IsTold env Told r.sidecar h.committed service (s ∷ signals) told) h

  pub process_entries-IsReached :
      (entries : Dict ℕ (BeaconService × List BeaconSignal)) (r : Resolver) (needs : List DataNeed)
      → All (λ x. All (Told x.1.0) x.1.1) entries
      → IsReached env Told origin text r
      → Carries (process_entries env r entries needs)
  unfolding process_entries
  process_entries-IsReached [] r needs told h = h
  process_entries-IsReached ((k, (service, signals)) ∷ rest) r needs told h =
      next (process_entry env r service signals)
        (process_entry-IsReached r service signals told.0 h)
        (λ r' more h'. process_entries-IsReached rest r' (needs ++ more) told.1 h')
    where
      next :
          (x : Resolver × Result ResolveError (List DataNeed))
          → Carries x
          → ((r' : Resolver) (more : List DataNeed)
              → IsReached env Told origin text r'
              → Carries (process_entries env r' rest (needs ++ more)))
          → Carries (continue_with x (λ r' more. process_entries env r' rest (needs ++ more)))
      next (r', err e) h' ih = h'
      next (r', ok more) h' ih = ih r' more h'

  pub take_progress-IsReached :
      (r : Resolver) (h : IsReached env Told origin text r) (q : Progress)
      → ChainTo env
          (IsTold env Told)
          (time_limit env r.version_time)
          (started env h.document r.current_version_id r.update_hash_history)
          q
      → IsReached env Told origin text (take_progress r q)
  unfolding take_progress start_response
  take_progress-IsReached r h q c = record {
    document = q.response.did_document;
    present = refl;
    chain = trans env h.chain c;
    answered = λ a e. ground (arith, e);
    timed = h.timed;
    past_genesis = h.past_genesis;
    committed = h.committed;
    waiting = tt;
    told = h.told;
  }
