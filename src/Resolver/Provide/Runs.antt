-- ===== src/Resolver/Provide/Runs.antt =====
-- A whole resolution: calls of `resolve` and `provide` in any order.
use did_btcr2_js.Resolver.Provide.{
  set_signals, Payload, hex_hash, is_record, json_payload, new_resolver, payload_value, provide,
  provide_cas, provide_genesis, provide_signals, provide_smt, provide_update, read_cas_announcement,
  read_signed_update, read_smt_proof, signals_payload,
}
use did_btcr2_js.Resolver.Types.{
  BeaconService, BeaconSignal, DataNeed, Env, ResolveError, Response, SidecarData,
  invalid_did_update, need_beacon_signals, need_cas_announcement, need_genesis_document,
  need_signed_update, need_smt_proof,
}
use did_btcr2_js.Prelude.{
  All, List, ◌∷◌, Option, [], nat_eq, refl, some, string_eq, subst, sym, ℕ, ◌==◌, ◌≡◌,
}
use did_btcr2_js.Prelude.Result.{Holds, Holds->>=, Holds-eq, guard, ok, or_throw}
use did_btcr2_js.Resolver.Machine.Soundness.{Yields, resolve-Yields}
use did_btcr2_js.Resolver.Machine.Reached.{IsReached}
use did_btcr2_js.Resolver.Updates.{time_limit}
use did_btcr2_js.Smt.Hash.{Bytes}
use did_btcr2_js.Resolver.Machine.{Resolver, ResolverState, action_required, resolve, resolved, run}
use did_btcr2_js.Resolver.Updates.Chain.{Chain}
use did_btcr2_js.Common.Json.{Json}
use Prim.Native.String.{String}
use did_btcr2_js.Resolver.Apply.{decode_hash}
use did_btcr2_js.Prelude.Dict.{All-set, Dict, set}
use did_btcr2_js.Prelude.Step.{need}
use did_btcr2_js.Resolver.Provide.Commitments.{IsCommitted, provide-IsCommitted}
use did_btcr2_js.Resolver.Provide.Told.{IsTold}

-- The states that calls which return lead to.
pub data Runs (env : Env) (r : Resolver) : Resolver → Type 0 where
  start : Runs env r r
  asks :
      {r' r'' : Resolver}
      → Runs env r r'
      → (s : ResolverState) → resolve env r' ≡ some (r'', ok s)
      → Runs env r r''
  gets :
      {r' r'' : Resolver}
      → Runs env r r'
      → (need : DataNeed) (payload : Payload) → provide env r' need payload ≡ ok r''
      → Runs env r r''

-- The signals that a payload brings, under the identities of their services.
abbrev Brings : (BeaconService → BeaconSignal → Type 0) → DataNeed → Payload → Type 0
Brings Told (need_beacon_signals services) (signals_payload m) = All (λ x. All (Told x.1.0) x.1.1) m
Brings Told need payload = Unit

-- Every signal that the calls of `provide` bring is one of `Told`.
abbrev pub GivesOnly :
    {env : Env} {r r' : Resolver} → (BeaconService → BeaconSignal → Type 0) → Runs env r r' → Type 0
GivesOnly Told start = Unit
GivesOnly Told (asks run s e) = GivesOnly Told run
GivesOnly Told (gets run need payload e) = GivesOnly Told run × Brings Told need payload

set_signals-All :
    (P : ℕ × (BeaconService × List BeaconSignal) → Type 0)
    (m signals : Dict ℕ (BeaconService × List BeaconSignal))
    → All P m
    → All P signals
    → All P (set_signals m signals)
unfolding set_signals
set_signals-All P [] signals a b = b
set_signals-All P ((object, entry) ∷ rest) signals a b =
    set_signals-All P rest (set object entry signals) a.1 (All-set P object entry signals b a.0)

module _ (env : Env) (Told : BeaconService → BeaconSignal → Type 0) (origin : Json)
    (text : Option String) where
  abbrev Reached : Resolver → Type 0
  Reached = IsReached env Told origin text

  -- A state that differs in its sidecar data and signals.
  with_data :
      (r : Resolver) (sidecar : SidecarData) (signals : Dict ℕ (BeaconService × List BeaconSignal))
      → Reached r
      → IsCommitted env sidecar
      → All (λ x. All (Told x.1.0) x.1.1) signals
      → Reached (record r { sidecar = sidecar; beacon_signals = signals })
  with_data r sidecar signals h c t = record {
    document = h.document;
    present = h.present;
    chain = h.chain;
    answered = h.answered;
    timed = h.timed;
    past_genesis = h.past_genesis;
    committed = c;
    waiting = h.waiting;
    told = t;
  }

  abbrev Stays : Resolver → Type 0
  Stays q = IsCommitted env q.sidecar → Reached q

  provide-IsReached :
      (r : Resolver) (need : DataNeed) (payload : Payload)
      → Reached r
      → Brings Told need payload
      → Holds Stays (provide env r need payload)
  unfolding provide provide_genesis provide_signals provide_cas provide_update provide_smt
  provide-IsReached r (need_genesis_document hash) payload h given =
      Holds->>= {E = ResolveError} {B = Resolver} Stays
        (guard (is_record (payload_value payload)) invalid_did_update) _
        (λ _ _ c. with_data r _ _ h c h.told)
  provide-IsReached r (need_beacon_signals services) (json_payload j) h given = tt
  provide-IsReached r (need_beacon_signals services) (signals_payload m) h given = λ c.
      with_data r _ _ h c
        (set_signals-All (λ x. All (Told x.1.0) x.1.1) m r.beacon_signals given h.told)
  provide-IsReached r (need_cas_announcement hash service) payload h given =
      Holds->>= {E = ResolveError} {B = Resolver} Stays
        (or_throw (read_cas_announcement (payload_value payload)) invalid_did_update) _
        (λ a _.
          Holds->>= {E = ResolveError} {B = Resolver} Stays
            (guard (hex_hash env a.json == hash) invalid_did_update) _
            (λ _ _ c. with_data r _ _ h c h.told))
  provide-IsReached r (need_signed_update hash service) payload h given =
      Holds->>= {E = ResolveError} {B = Resolver} Stays
        (or_throw (read_signed_update (payload_value payload)) invalid_did_update) _
        (λ u _.
          Holds->>= {E = ResolveError} {B = Resolver} Stays
            (guard (hex_hash env u.json == hash) invalid_did_update) _
            (λ _ _ c. with_data r _ _ h c h.told))
  provide-IsReached r (need_smt_proof hash service) payload h given =
      Holds->>= {E = ResolveError} {B = Resolver} Stays
        (or_throw (read_smt_proof (payload_value payload)) invalid_did_update) _
        (λ p _. Holds->>= {E = ResolveError} {B = Resolver} Stays (decode_hash env p.id) _ (λ id _.
          Holds->>= {E = ResolveError} {B = Resolver} Stays
            (guard (env.encode_hex id == hash) invalid_did_update) _
            (λ _ _ c. with_data r _ _ h c h.told)))

  Yields-IsReached :
      (r : Resolver) (s : ResolverState)
      → Yields env Told origin text r s
      → IsReached env Told origin text r
  Yields-IsReached r (action_required needs) h = h
  Yields-IsReached r (resolved a) h = h.0

  Runs-IsReached :
      (r r' : Resolver) → Reached r → (run : Runs env r r') → GivesOnly Told run → Reached r'
  Runs-IsReached r r' h start g = h
  Runs-IsReached r r'' h (asks {r' = r'} run s e) g =
      Yields-IsReached r'' s
        (resolve-Yields env Told origin text r' r'' s (Runs-IsReached r r' h run g) e)
  Runs-IsReached r r'' h (gets {r' = r'} run need payload e) g =
      let before = Runs-IsReached r r' h run g.0 in
      Holds-eq Stays (provide env r' need payload) r''
        (provide-IsReached r' need payload before g.1) e
        (Holds-eq (λ q. IsCommitted env q.sidecar) (provide env r' need payload) r''
          (provide-IsCommitted env r' need payload before.committed) e)

new_resolver-IsReached :
    (env : Env) (Told : BeaconService → BeaconSignal → Type 0) (did : String)
    (genesis_bytes : Bytes) (sidecar : SidecarData) (origin : Json)
    (version_id version_time : Option String) (genesis : Option Json) (max : Option ℕ)
    → IsCommitted env sidecar
    → IsReached env Told origin version_time
        (new_resolver did genesis_bytes sidecar (some origin) version_id version_time genesis max)
unfolding new_resolver
new_resolver-IsReached env Told did genesis_bytes sidecar origin version_id version_time genesis max
      c =
    record {
      document = origin;
      present = refl;
      chain = Chain.start;
      answered = λ a e. cc;
      timed = refl;
      past_genesis = λ e. cc;
      committed = c;
      waiting = tt;
      told = tt;
    }

-- A resolution that starts with a document and with sidecar data that stands under its hashes, and goes
-- on with calls of `resolve` and `provide` in any order, none of which throws, where the signals that
-- `provide` gets are those of Told and the other data is any: when `resolve` gives a resolved document,
-- that document is reached from the first one by a chain of updates. Each of them is announced by a
-- signal of Told (by its hash, by a CAS announcement or by an SMT proof), is for the next version, has
-- the hash of the document before it as its source hash, was mined, in the block of that signal, no later
-- than `versionTime`, and was accepted by `applyUpdate`; the resolver's version and history are those of
-- the chain.
pub resolved-Chain :
    (env : Env) (Told : BeaconService → BeaconSignal → Type 0) (did : String)
    (genesis_bytes : Bytes) (sidecar : SidecarData) (origin : Json)
    (version_id version_time : Option String) (genesis : Option Json) (max : Option ℕ)
    (r r' : Resolver) (answer : Response)
    → IsCommitted env sidecar
    → (run : Runs env
        (new_resolver did genesis_bytes sidecar (some origin) version_id version_time genesis max)
        r)
    → GivesOnly Told run
    → resolve env r ≡ some (r', ok (resolved answer))
    → Chain env
        (IsTold env Told)
        (time_limit env version_time)
        origin
        1
        []
        answer.did_document
        r'.current_version_id
        r'.update_hash_history
resolved-Chain env Told did genesis_bytes sidecar origin version_id vt genesis max r r' answer c run
      g e =
    let first =
      new_resolver-IsReached env Told did genesis_bytes sidecar origin version_id vt genesis max
        c in
    let (h, same) =
      resolve-Yields env Told origin vt r r' (resolved answer)
        (Runs-IsReached env Told origin vt _ r first run g) e in
    subst
      (λ (d : Json).
        Chain env (IsTold env Told) (time_limit env vt) origin 1 [] d r'.current_version_id
          r'.update_hash_history)
      (sym same)
      (subst
        (λ (x : Option String).
          Chain env (IsTold env Told) (time_limit env x) origin 1 [] h.document
            r'.current_version_id r'.update_hash_history)
        h.timed h.chain)
