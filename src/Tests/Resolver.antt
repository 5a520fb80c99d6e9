-- ===== src/Tests/Resolver.antt =====
-- The theorems on the resolver at work on a document and an update of it.
use did_btcr2_js.Resolver.Apply.{
  unsigned_deep, unsigned_shallow, apply_update, decode_hash, json_patch_apply_document,
  valid_operation,
}
use did_btcr2_js.Tests.ToyEnv.{patched, size, toy_env}
use did_btcr2_js.Common.Json.{
  omit_fields, Fields, Json, arr, delete_keys, end, field, get_field, get_in, item, items_to_list,
  nil, null, num, obj, omit, str,
}
use did_btcr2_js.Resolver.Updates.{
  continues, throws, Announced, Progress, advance, insert_sorted, next_document, returns, settle,
  sort_updates, start_response, time_limit, touch, update_loop, update_turn, updates, version_limit,
}
use did_btcr2_js.Prelude.{In, arith, ◌<◌, ◌≢◌, ◌≤◌, [], none, refl, some, ◌∷◌, ◌≡◌}
use did_btcr2_js.Resolver.Updates.Chain.{Applies, Chain, updates-Chain, started}
use did_btcr2_js.Resolver.Documents.{
  dereference_zcap_id, extract_did_fragment, find_method, get_signing_method, wanted_method,
}
use did_btcr2_js.Common.Text.{split, split_from, strip_prefix}
use did_btcr2_js.Resolver.Types.{
  BeaconService, BeaconSignal, ResolveError, SidecarData, late_publishing, need_signed_update,
  BlockMetadata, SignedUpdate,
}
use did_btcr2_js.Resolver.Updates.Duplicates.{IsLater, duplicate_rejected, duplicate_skipped}
use did_btcr2_js.Resolver.Provide.Signals.{Found, IsAnnounced, beacon_signal-Announces}
use did_btcr2_js.Resolver.Provide.Commitments.{IsCommitted, provide-IsCommitted}
use did_btcr2_js.Resolver.Machine.{Resolver, ResolverState, resolve}
use did_btcr2_js.Resolver.Provide.{Payload, json_payload, new_resolver, provide}
use did_btcr2_js.Resolver.Beacons.{beacon_signal}
use did_btcr2_js.Prelude.Result.{Holds, Result}
use did_btcr2_js.Resolver.Updates.Limits.{updates-version-le, updates_overshoot}
use did_btcr2_js.Tests.Toy.{bytes_equal_iff}
use did_btcr2_js.Resolver.Machine.Termination.{resolve_answers}

abbrev key : Json
key = obj (field "id" (str "k") (field "publicKeyMultibase" (str "z") end))

abbrev document : Json
document = obj (field "id" (str "x") (field "verificationMethod" (arr (item key nil)) end))

abbrev document_2 : Json
document_2 = patched document

-- An update from the document, of size 6, to one of size 7.
abbrev make_update : Fields → SignedUpdate
make_update fs = record {
  json = obj fs;
  patch = arr nil;
  source_hash = "ssssss";
  target_hash = "ttttttt";
  target_version_id = 2;
  proof = some (record { capability = some "urn:zcap:root:x"; verification_method = some "k" });
}

abbrev update : SignedUpdate
update = make_update (field "targetVersionId" (num 2) (field "proof" (obj end) end))

-- The same with a key `proof` inside another field.
abbrev nested_update : SignedUpdate
nested_update = make_update (field "context" (obj (field "proof" null end)) end)

abbrev block : BlockMetadata
block = record { height = 100; time = 7; confirmations = 3 }

abbrev pair_of : SignedUpdate → Announced
pair_of u = (u, block)

abbrev at_start : Progress
at_start = started toy_env document 1 []

abbrev after : Progress
after = advance toy_env (touch toy_env at_start block) update document_2

updates_test :
    updates toy_env document (pair_of update ∷ []) (some "aaaaaaa") none 1 [] ≡ returns after
unfolding updates sort_updates insert_sorted update_loop update_turn next_document decode_hash
    apply_update json_patch_apply_document valid_operation dereference_zcap_id get_signing_method
    find_method wanted_method extract_did_fragment delete_keys omit get_field get_in split
    split_from touch advance settle start_response time_limit version_limit size items_to_list
    strip_prefix
updates_test = refl

updates-Chain_example :
    Chain toy_env
      (λ a. In a (pair_of update ∷ []))
      (time_limit toy_env (some "aaaaaaa"))
      document
      1
      []
      after.response.did_document
      after.version
      after.history
updates-Chain_example =
    updates-Chain toy_env document (pair_of update ∷ []) (some "aaaaaaa") none 1 [] after
      updates_test

limited_test : updates toy_env document (pair_of update ∷ []) none (some "aa") 1 [] ≡ returns after
unfolding updates sort_updates insert_sorted update_loop update_turn next_document decode_hash
    apply_update json_patch_apply_document valid_operation dereference_zcap_id get_signing_method
    find_method wanted_method extract_did_fragment delete_keys omit get_field get_in split
    split_from touch advance settle start_response time_limit version_limit size items_to_list
    strip_prefix
limited_test = refl

updates-version-le_example : after.version ≤ 2
updates-version-le_example =
    updates-version-le toy_env document (pair_of update ∷ []) none "aa" 2 1 [] after refl
      (omega arith) limited_test

pair_of-Applies : Applies toy_env (time_limit toy_env none) document 1 (pair_of update) document_2
unfolding decode_hash apply_update json_patch_apply_document valid_operation dereference_zcap_id
    get_signing_method find_method wanted_method extract_did_fragment get_field get_in split
    split_from time_limit size items_to_list
pair_of-Applies = record {
  next = refl;
  in_time = refl;
  source = (6 ∷ [], refl, refl);
  accepted = refl;
}

sorted_test : sort_updates (pair_of update ∷ []) ≡ pair_of update ∷ []
unfolding sort_updates insert_sorted
sorted_test = refl

updates_overshoot_example :
    (q : Progress) × (updates toy_env document (pair_of update ∷ []) none (some "a") 1 []
      ≡ returns q)
    × (q.version ≡ 2)
    × (1 < q.version)
    × (q.response.did_document ≡ document_2)
updates_overshoot_example =
    updates_overshoot toy_env document document_2 (pair_of update ∷ []) [] (pair_of update) none "a"
      1 1 [] refl (omega arith) sorted_test pair_of-Applies

after-IsLater : IsLater toy_env (touch toy_env at_start block) after update document_2
unfolding touch advance
after-IsLater = record {
  aligned = refl;
  started_at = omega arith;
  next = refl;
  version_le = omega arith;
  more = [];
  kept = refl;
}

duplicate_skipped_example :
    update_turn toy_env none none after (update, block) ≡ continues (touch toy_env after block)
duplicate_skipped_example =
    duplicate_skipped toy_env bytes_equal_iff none none (touch toy_env at_start block) after update
      document_2 (field "targetVersionId" (num 2) (field "proof" (obj end) end)) block after-IsLater
      refl (tt, (tt, tt))

abbrev after_nested : Progress
after_nested = advance toy_env at_start nested_update document_2

after_nested-IsLater : IsLater toy_env at_start after_nested nested_update document_2
unfolding advance
after_nested-IsLater = record {
  aligned = refl;
  started_at = omega arith;
  next = refl;
  version_le = omega arith;
  more = [];
  kept = refl;
}

nested_test :
    toy_env.hash_json (unsigned_deep nested_update)
    ≢ toy_env.hash_json (unsigned_shallow nested_update)
unfolding delete_keys omit size omit_fields
nested_test = λ e. absurd (ground (arith, e))

duplicate_rejected_example :
    update_turn toy_env none none after_nested (nested_update, block)
    ≡ throws after_nested.history late_publishing
duplicate_rejected_example =
    duplicate_rejected toy_env bytes_equal_iff none none at_start after_nested nested_update
      document_2 block after_nested-IsLater nested_test

abbrev no_sidecar : SidecarData
no_sidecar = record { update_map = []; cas_map = []; smt_map = [] }

abbrev resolver : Resolver
resolver = new_resolver "x" [] no_sidecar (some document) none none none none

resolve_answers_example :
    (out : Resolver × Result ResolveError ResolverState) × (resolve toy_env resolver ≡ some out)
resolve_answers_example = resolve_answers toy_env resolver

abbrev payload : Payload
payload = json_payload (
    obj (
      field "patch" (arr nil) (
        field "sourceHash" (str "s") (
          field "targetHash" (str "t")
            (field "targetVersionId" (num 2) (field "proof" (obj end) end))))))

no_sidecar-IsCommitted : IsCommitted toy_env no_sidecar
no_sidecar-IsCommitted = record { update_keys = tt; cas_keys = tt; smt_keys = tt }

resolver-IsCommitted : IsCommitted toy_env resolver.sidecar
unfolding new_resolver
resolver-IsCommitted = no_sidecar-IsCommitted

provide-IsCommitted_example :
    Holds
      (λ q. IsCommitted toy_env q.sidecar)
      (provide toy_env resolver (need_signed_update "h" "#b") payload)
provide-IsCommitted_example =
    provide-IsCommitted toy_env resolver (need_signed_update "h" "#b") payload resolver-IsCommitted

abbrev sidecar : SidecarData
sidecar = record { update_map = ("h", update) ∷ []; cas_map = []; smt_map = [] }

sidecar-IsCommitted : IsCommitted toy_env sidecar
sidecar-IsCommitted = record { update_keys = (refl, tt); cas_keys = tt; smt_keys = tt }

abbrev service : BeaconService
service = record {
  object = 0;
  id = "x#b";
  type_name = "SingletonBeacon";
  service_endpoint = "bitcoin:a";
}

abbrev signal : BeaconSignal
signal = record { signal_bytes = "h"; block_metadata = block }

beacon_signal-Announces_example :
    Holds
      (Found (IsAnnounced toy_env service signal))
      (beacon_signal toy_env sidecar service signal)
beacon_signal-Announces_example =
    beacon_signal-Announces toy_env sidecar sidecar-IsCommitted service signal
