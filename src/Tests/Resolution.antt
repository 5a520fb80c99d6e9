-- ===== src/Tests/Resolution.antt =====
-- A whole resolution at work: a document with a beacon, asked for its signals, and updated once, by an
-- update in a block of the very time of the limit.
use did_btcr2_js.Resolver.Types.{
  BeaconService, BeaconSignal, Response, SidecarData, SignedUpdate, decimal, need_beacon_signals,
}
use did_btcr2_js.Common.Json.{
  Json, arr, delete_keys, end, field, get_field, get_in, item, items_to_list, nil, num, obj, omit,
  str,
}
use did_btcr2_js.Prelude.Dict.{add, get, set}
use did_btcr2_js.Resolver.Provide.Runs.{Runs, resolved-Chain}
use did_btcr2_js.Resolver.Machine.{
  complete, Resolver, action_required, add_addresses, discover, keep_result, new_services,
  pass_apply, pass_complete, pass_discovery, pass_in, pass_once, pass_process, process_entries,
  process_entry, rediscover, resolve, resolved, run, settle_needs, take_progress, take_result,
  take_updates,
}
use did_btcr2_js.Resolver.Apply.{
  apply_update, decode_hash, json_patch_apply_document, valid_operation,
}
use did_btcr2_js.Resolver.Updates.{
  advance, insert_sorted, next_document, settle, sort_updates, start_response, time_limit, touch,
  update_loop, update_turn, updates, version_limit,
}
use did_btcr2_js.Tests.ToyEnv.{patched, size, toy_env}
use did_btcr2_js.Resolver.Provide.{
  new_resolver, provide, provide_signals, set_signals, signals_payload,
}
use did_btcr2_js.Resolver.Documents.{
  beacon_services_from, dereference_zcap_id, extract_did_fragment, find_method, get_beacon_services,
  get_signing_method, parse_bitcoin_address, read_beacon_service, wanted_method,
}
use did_btcr2_js.Prelude.Result.{ok}
use did_btcr2_js.Common.Text.{first_part, split, split_from, strip_prefix}
use did_btcr2_js.Resolver.Beacons.{beacon_signal, lookup_update, process_signals, singleton_signal}
use did_btcr2_js.Prelude.{[], false, nat_eq, none, refl, some, string_eq, ◌∷◌, ◌≡◌}
use did_btcr2_js.Resolver.Updates.Chain.{Chain}
use did_btcr2_js.Resolver.Provide.Commitments.{IsCommitted}
use did_btcr2_js.Resolver.Provide.Told.{IsTold}

abbrev beacon : Json
beacon = obj (
    field "id" (str "x#b")
      (field "type" (str "SingletonBeacon") (field "serviceEndpoint" (str "bitcoin:a") end)))

abbrev origin : Json
origin = obj (
    field "id" (str "x") (
      field "verificationMethod"
        (arr (item (obj (field "id" (str "k") (field "publicKeyMultibase" (str "z") end))) nil))
        (field "service" (arr (item beacon nil)) end)))

abbrev update : SignedUpdate
update = record {
  json = obj (field "targetVersionId" (num 2) (field "proof" (obj end) end));
  patch = arr nil;
  source_hash = "sssssssssss";
  target_hash = "tttttttttttt";
  target_version_id = 2;
  proof = some (record { capability = some "urn:zcap:root:x"; verification_method = some "k" });
}

abbrev sidecar : SidecarData
sidecar = record { update_map = ("h", update) ∷ []; cas_map = []; smt_map = [] }

abbrev service : BeaconService
service = record {
  object = 0;
  id = "x#b";
  type_name = "SingletonBeacon";
  service_endpoint = "bitcoin:a";
}

abbrev signal : BeaconSignal
signal = record {
  signal_bytes = "h";
  block_metadata = record { height = 100; time = 7; confirmations = 3 };
}

abbrev first : Resolver
first = new_resolver "x" [] sidecar (some origin) none (some "aaaaaaa") none none

abbrev asked : Resolver
asked = record first { request_cache = "a" ∷ [] }

abbrev given_signals : Resolver
given_signals = record asked { beacon_signals = (0, (service, signal ∷ [])) ∷ [] }

abbrev answer : Response
answer = record {
  did_document = patched origin;
  version_id = decimal 2;
  confirmations = some 3;
  updated = some "time";
  deactivated = false;
}

abbrev last : Resolver
last = record given_signals {
  phase = complete;
  processed_services = "x#b" ∷ [];
  current_document = some (patched origin);
  first_object = 2;
  resolved_response = some answer;
  current_version_id = 2;
  update_hash_history = (2 ∷ []) ∷ [];
}

asked_test :
    resolve toy_env first
    ≡ some (asked, ok (action_required (need_beacon_signals (service ∷ []) ∷ [])))
unfolding new_resolver resolve run pass_once pass_in pass_discovery discover new_services
    parse_bitcoin_address get_beacon_services beacon_services_from read_beacon_service strip_prefix
    first_part split split_from add_addresses add get_field get_in
asked_test = refl

given_test :
    provide toy_env asked
      (need_beacon_signals (service ∷ []))
      (signals_payload ((0, (service, signal ∷ [])) ∷ []))
    ≡ ok given_signals
unfolding provide provide_signals set_signals set new_resolver
given_test = refl

resolved_test : resolve toy_env given_signals ≡ some (last, ok (resolved answer))
unfolding new_resolver resolve run pass_once pass_in pass_discovery discover new_services
    parse_bitcoin_address get_beacon_services beacon_services_from read_beacon_service strip_prefix
    first_part split split_from add_addresses add get_field get_in pass_process process_entries
    process_entry take_result keep_result settle_needs process_signals beacon_signal
    singleton_signal lookup_update get pass_apply take_updates take_progress rediscover
    pass_complete updates sort_updates insert_sorted update_loop update_turn next_document
    decode_hash apply_update json_patch_apply_document valid_operation dereference_zcap_id
    get_signing_method find_method wanted_method extract_did_fragment delete_keys omit touch advance
    settle start_response time_limit version_limit size items_to_list
resolved_test = refl

abbrev first_run : Runs toy_env first given_signals
first_run =
    Runs.gets
      (Runs.asks Runs.start (action_required (need_beacon_signals (service ∷ []) ∷ [])) asked_test)
      (need_beacon_signals (service ∷ [])) (signals_payload ((0, (service, signal ∷ [])) ∷ []))
      given_test

sidecar-IsCommitted : IsCommitted toy_env sidecar
sidecar-IsCommitted = record { update_keys = (refl, tt); cas_keys = tt; smt_keys = tt }

-- The one signal of the resolution.
abbrev Told : BeaconService → BeaconSignal → Type 0
Told s x = (s ≡ service) × (x ≡ signal)

resolved-Chain_example :
    Chain toy_env
      (IsTold toy_env Told)
      (time_limit toy_env (some "aaaaaaa"))
      origin
      1
      []
      answer.did_document
      last.current_version_id
      last.update_hash_history
resolved-Chain_example =
    resolved-Chain toy_env Told "x" [] sidecar origin none (some "aaaaaaa") none none given_signals
      last answer sidecar-IsCommitted first_run (tt, (((refl, refl), tt), tt)) resolved_test
