-- ===== src/Resolver/Machine.antt =====
-- `Resolver.resolve` and `Resolver.external` of packages/method/src/core/resolver.ts: the state machine
-- that asks for data and applies updates.
pub mod Soundness
pub mod Termination
pub mod Reached
use did_btcr2_js.Resolver.Types.{
  given, internal_error, BeaconService, BeaconSignal, DataNeed, ResolveError, Response, SidecarData,
  invalid_did_document, need_beacon_signals, need_genesis_document, Env,
}
use did_btcr2_js.Prelude.Dict.{Dict, add, includes}
use did_btcr2_js.Prelude.{
  Bool, false, length, ltb, suc, zero, ◌+◌, List, Option, [], from_option, if◌then◌else◌, map,
  nat_eq, none, some, string_eq, ℕ, ◌++◌, ◌∷◌,
}
use did_btcr2_js.Resolver.Documents.{get_beacon_services, parse_bitcoin_address}
use did_btcr2_js.Prelude.Result.{Result, err, guard, ok, or_throw, ◌>>=◌, ◌>>◌}
use did_btcr2_js.Common.Json.{
  get_field, is_true, Fields, Items, Json, arr, bool, end, field, item, nil, null, num, obj,
  other_num, str,
}
use did_btcr2_js.Resolver.Beacons.{BeaconProcessResult, process_signals}
use did_btcr2_js.Smt.Hash.{Bytes}
use Prim.Native.String.{String}
use did_btcr2_js.Resolver.Updates.{Turn, Progress, continues, returns, throws, Announced, updates}

pub data ResolverPhase : Type 0 where
  genesis_document beacon_discovery beacon_process apply_updates complete : ResolverPhase

pub record Resolver : Type 0 where
  -- the text of the identifier, as Identifier.encode writes its components
  pub did : String
  pub genesis_bytes : Bytes
  pub version_id : Option String
  pub version_time : Option String
  -- `none` for Infinity
  pub max_discovery_rounds : Option ℕ
  pub phase : ResolverPhase
  pub sidecar : SidecarData
  pub current_document : Option Json
  -- the name of the first service object of the current document
  pub first_object : ℕ
  pub provided_genesis : Option Json
  pub beacon_signals : Dict ℕ (BeaconService × List BeaconSignal)
  pub processed_services : List String
  pub request_cache : List String
  pub unsorted_updates : List Announced
  pub resolved_response : Option Response
  pub current_version_id : ℕ
  pub update_hash_history : List Bytes
  pub discovery_rounds : ℕ

pub data ResolverState : Type 0 where
  action_required : List DataNeed → ResolverState
  resolved : Response → ResolverState

-- What one pass through the `switch` does.
pub data Pass : Type 0 where
  loops : Resolver → Pass
  yields : Resolver → ResolverState → Pass
  fails : Resolver → ResolveError → Pass

abbrev services_of : Resolver → List BeaconService
services_of r = get_beacon_services r.first_object (from_option null r.current_document)

-- The services whose address was not asked for yet, and their addresses.
unfoldable pub new_services :
    List String → List BeaconService → Result ResolveError (List (BeaconService × String))
new_services cache [] = ok []
new_services cache (s ∷ rest) = do
  address ← parse_bitcoin_address s.service_endpoint
  others ← new_services cache rest
  ok (if includes address cache then others else (s, address) ∷ others)

unfoldable pub add_addresses : List (BeaconService × String) → List String → List String
add_addresses [] cache = cache
add_addresses ((s, address) ∷ rest) cache = add_addresses rest (add address cache)

-- `BeaconDiscovery`, given the services that are new.
unfoldable pub discover : Resolver → Result ResolveError (List (BeaconService × String)) → Pass
discover r (err e) = fails r e
discover r (ok []) = loops (record r { phase = beacon_process })
discover r (ok (s ∷ rest)) =
    yields (record r { request_cache = add_addresses (s ∷ rest) cache })
      (action_required (need_beacon_signals (map (λ x. x.0) (s ∷ rest)) ∷ []))
  where
    open r use {request_cache as cache}

abbrev over_limit : Option ℕ → ℕ → Bool
over_limit none rounds = false
over_limit (some max) rounds = ltb max rounds

-- The end of `ApplyUpdates`, given the services that the updates have added.
unfoldable pub rediscover : Resolver → Result ResolveError (List (BeaconService × String)) → Pass
rediscover r (err e) = fails r e
rediscover r (ok []) = loops (record r { phase = complete })
rediscover r (ok (s ∷ rest)) =
    if over_limit r.max_discovery_rounds (rounds + 1)
    then fails (record r { discovery_rounds = rounds + 1 }) internal_error
    else loops (record r { discovery_rounds = rounds + 1; phase = beacon_discovery })
  where
    open r use {discovery_rounds as rounds}

-- The end of `BeaconProcess`, given the state and the needs that the loop has left.
unfoldable pub settle_needs : Resolver × Result ResolveError (List DataNeed) → Pass
settle_needs (r, err e) = fails r e
settle_needs (r, ok []) = loops (record r { phase = apply_updates })
settle_needs (r, ok (n ∷ ns)) = yields r (action_required (n ∷ ns))

-- The state after `Resolver.updates` has returned.
unfoldable pub take_progress : Resolver → Progress → Resolver
take_progress r q = record r {
  resolved_response = some q.response;
  current_version_id = q.version;
  update_hash_history = q.history;
  current_document = some q.response.did_document;
  first_object = first + 1 + length (services_of r);
  unsorted_updates = [];
}
  where
    open r use {first_object as first}

-- `ApplyUpdates`, given how the call of `Resolver.updates` has ended.
unfoldable pub take_updates : Resolver → Turn → Pass
unfolding rediscover
take_updates r (continues q) =
    rediscover (take_progress r q) (new_services r.request_cache (services_of (take_progress r q)))
take_updates r (returns q) =
    rediscover (take_progress r q) (new_services r.request_cache (services_of (take_progress r q)))
take_updates r (throws history e) = fails (record r { update_hash_history = history }) e

-- `GenesisDocument`, given the document that `Resolver.external` makes.
pub take_genesis : Resolver → Result ResolveError Json → Pass
take_genesis r (err e) = fails r e
take_genesis r (ok document) = loops (record r {
  current_document = some document;
  provided_genesis = none;
  phase = beacon_discovery;
})

mutual
  replace_placeholder : Env → String → Json → Json
  replace_placeholder env did null = null
  replace_placeholder env did (bool b) = bool b
  replace_placeholder env did (num n) = num n
  replace_placeholder env did (other_num n) = other_num n
  replace_placeholder env did (str s) = str (env.replace_all s "did:btcr2:_" did)
  replace_placeholder env did (arr xs) = arr (replace_in_items env did xs)
  replace_placeholder env did (obj fs) = obj (replace_in_fields env did fs)

  replace_in_items : Env → String → Items → Items
  replace_in_items env did nil = nil
  replace_in_items env did (item x xs) =
      item (replace_placeholder env did x) (replace_in_items env did xs)

  replace_in_fields : Env → String → Fields → Fields
  replace_in_fields env did end = end
  replace_in_fields env did (field k v fs) =
      field (env.replace_all k "did:btcr2:_" did) (replace_placeholder env did v)
        (replace_in_fields env did fs)

-- What `BeaconProcess` does with the result of a beacon, given its needs.
unfoldable pub keep_result :
    Resolver
    → BeaconService
    → BeaconProcessResult
    → List DataNeed
    → Resolver × Result ResolveError (List DataNeed)
keep_result r service result [] = (
  record r {
    unsorted_updates = unsorted ++ result.updates;
    processed_services = add service.id processed;
  },
  ok [],
)
  where
    open r use {unsorted_updates as unsorted, processed_services as processed}
keep_result r service result (n ∷ ns) = (r, ok (n ∷ ns))

unfoldable pub take_result :
    Resolver
    → BeaconService
    → Result ResolveError BeaconProcessResult
    → Resolver × Result ResolveError (List DataNeed)
take_result r service (err e) = (r, err e)
take_result r service (ok result) = keep_result r service result result.needs

-- The next turn of the loop, unless this one has thrown.
abbrev pub continue_with :
    Resolver × Result ResolveError (List DataNeed)
    → (Resolver → List DataNeed → Resolver × Result ResolveError (List DataNeed))
    → Resolver × Result ResolveError (List DataNeed)
continue_with (r, err e) next = (r, err e)
continue_with (r, ok more) next = next r more

module _ (env : Env) where
  pub external : String → Bytes → Json → Result ResolveError Json
  unfolding replace_placeholder
  external did genesis_bytes genesis = do
    guard (env.crypto.equal_bytes genesis_bytes (env.hash_json genesis)) invalid_did_document
    or_throw (env.new_document (replace_placeholder env did genesis)) invalid_did_document

  pub pass_genesis : Resolver → Pass
  pass_genesis r = elim r.provided_genesis [
    | none ↦
        yields r (action_required (need_genesis_document (env.encode_hex r.genesis_bytes) ∷ []))
    | some genesis ↦ take_genesis r (external r.did r.genesis_bytes genesis)
  ]

  unfoldable pub pass_discovery : Resolver → Pass
  pass_discovery r = discover r (new_services r.request_cache (services_of r))

  -- The body of the loop over `#beaconServicesSignals`, for one entry: the state and its needs.
  unfoldable pub process_entry :
      Resolver → BeaconService → List BeaconSignal → Resolver × Result ResolveError (List DataNeed)
  process_entry r service [] = (r, ok [])
  process_entry r service (s ∷ signals) =
      if includes service.id r.processed_services
      then (r, ok [])
      else take_result r service (process_signals env r.sidecar service (s ∷ signals))

  unfoldable pub process_entries :
      Resolver
      → Dict ℕ (BeaconService × List BeaconSignal)
      → List DataNeed
      → Resolver × Result ResolveError (List DataNeed)
  process_entries r [] needs = (r, ok needs)
  process_entries r ((_, (service, signals)) ∷ rest) needs =
      continue_with (process_entry r service signals)
        (λ r' more. process_entries r' rest (needs ++ more))

  unfoldable pub pass_process : Resolver → Pass
  pass_process r = settle_needs (process_entries r r.beacon_signals [])

  unfoldable pub pass_apply : Resolver → Pass
  pass_apply r = elim r.unsorted_updates [
    | [] ↦ loops (record r { phase = complete })
    | a ∷ rest ↦ take_updates r (
        updates env (from_option null r.current_document) (a ∷ rest) r.version_time r.version_id
          r.current_version_id r.update_hash_history)
  ]

  -- The answer where no update was ever applied.
  pub untouched_response : Resolver → Response
  untouched_response r = record {
    did_document = from_option null r.current_document;
    version_id = elim r.version_id [ none ↦ given "1" | some text ↦ given text ];
    confirmations = none;
    updated = none;
    deactivated = is_true (get_field "deactivated" (from_option null r.current_document));
  }

  unfoldable pub pass_complete : Resolver → Pass
  pass_complete r = yields r (resolved (from_option (untouched_response r) r.resolved_response))

  -- The branch of the `switch` for a phase.
  unfoldable pub pass_in : Resolver → ResolverPhase → Pass
  pass_in r genesis_document = pass_genesis r
  pass_in r beacon_discovery = pass_discovery r
  pass_in r beacon_process = pass_process r
  pass_in r apply_updates = pass_apply r
  pass_in r complete = pass_complete r

  unfoldable pub pass_once : Resolver → Pass
  pass_once r = pass_in r r.phase

  -- The `while(true)` of `resolve`, with fuel: `none` means that the fuel ran out.
  unfoldable pub run : ℕ → Resolver → Option (Resolver × Result ResolveError ResolverState)
  run zero r = none
  run (suc fuel) r = elim (pass_once r) [
    | loops r' ↦ run fuel r'
    | yields r' s ↦ some (r', ok s)
    | fails r' e ↦ some (r', err e)
  ]

  -- The fuel is one more than the number of phases.
  unfoldable pub resolve : Resolver → Option (Resolver × Result ResolveError ResolverState)
  resolve r = run 6 r
