-- ===== src/Resolver/Provide.antt =====
-- `Resolver.sidecarData`, the constructor and `Resolver.provide` of
-- packages/method/src/core/resolver.ts, with the guards on the payloads. A payload is a JSON value or a
-- `Map` of signals; the guards also give the properties that are read from the payload later.
pub mod Runs
pub mod Signals
pub mod Told
pub mod Commitments
pub mod Verified
use did_btcr2_js.Resolver.Apply.{decode_hash}
use did_btcr2_js.Prelude.Result.{Result, err, guard, ok, or_throw, ◌>>=◌, ◌>>◌}
use did_btcr2_js.Prelude.{
  Bool, List, Option, [], from_option, if◌then◌else◌, is_some, leb, ltb, map, nat_eq, none, some,
  string_eq, ℕ, ◌&&◌, ◌==◌, ◌∷◌,
}
use did_btcr2_js.Common.Json.{
  Fields, Json, as_fields, as_items, as_nat, as_text, end, field, get_field, items_to_list, nil,
  null, obj,
}
use did_btcr2_js.Smt.Proof.{SerializedSmtProof}
use did_btcr2_js.Resolver.Types.{
  BeaconService, BeaconSignal, CasAnnouncement, DataNeed, Env, Proof, ResolveError, SidecarData,
  SignedUpdate, invalid_did_update, need_beacon_signals, need_cas_announcement,
  need_genesis_document, need_signed_update, need_smt_proof,
}
use Prim.Native.String.{String}
use did_btcr2_js.Prelude.Dict.{Dict, set}
use did_btcr2_js.Resolver.Machine.{Resolver, beacon_discovery, genesis_document}
use did_btcr2_js.Smt.Hash.{Bytes}

pub record Sidecar : Type 0 where
  pub updates : List SignedUpdate
  pub cas_updates : List CasAnnouncement
  pub smt_proofs : List (SerializedSmtProof String)

pub data Payload : Type 0 where
  json_payload : Json → Payload
  signals_payload : Dict ℕ (BeaconService × List BeaconSignal) → Payload

-- A `Map` passes `isRecord`, and has no fields of its own.
abbrev pub payload_value : Payload → Json
payload_value (json_payload j) = j
payload_value (signals_payload m) = obj end

abbrev pub is_record : Json → Bool
is_record j = is_some (as_fields (some j))

-- `Object.values(value).every(v => typeof v === 'string')`, giving the entries.
pub read_entries : Fields → Option (Dict String String)
read_entries end = some []
read_entries (field k v fs) =
    let rest = read_entries fs in
    elim (as_text (some v)) [
      | none ↦ none
      | some text ↦ elim rest [ none ↦ none | some entries ↦ some ((k, text) ∷ entries) ]
    ]

pub read_cas_announcement : Json → Option CasAnnouncement
read_cas_announcement j = elim (as_fields (some j)) [
  | none ↦ none
  | some fs ↦ elim (read_entries fs) [
    | none ↦ none
    | some entries ↦ some (record { json = j; entries = entries })
  ]
]

abbrev read_proof : Json → Proof
read_proof p = record {
  capability = as_text (get_field "capability" p);
  verification_method = as_text (get_field "verificationMethod" p);
}

-- Whether a value passes the tests of `isSignedBTCR2Update`.
pub is_signed_update : Json → Bool
is_signed_update j =
    is_record j
    && is_some (as_items (get_field "patch" j))
    && is_some (as_text (get_field "sourceHash" j))
    && is_some (as_text (get_field "targetHash" j))
    && leb 2 (from_option 0 (as_nat (get_field "targetVersionId" j)))
    && is_some (as_fields (get_field "proof" j))

pub read_signed_update : Json → Option SignedUpdate
read_signed_update j =
    if is_signed_update j
    then some (record {
      json = j;
      patch = from_option null (get_field "patch" j);
      source_hash = from_option "" (as_text (get_field "sourceHash" j));
      target_hash = from_option "" (as_text (get_field "targetHash" j));
      target_version_id = from_option 0 (as_nat (get_field "targetVersionId" j));
      proof = some (read_proof (from_option null (get_field "proof" j)));
    })
    else none

abbrev truthy_text : Option Json → Option String
truthy_text v = elim (as_text v) [ none ↦ none | some s ↦ if s == "" then none else some s ]

pub is_smt_proof : Json → Bool
is_smt_proof j =
    is_record j
    && is_some (as_text (get_field "id" j))
    && is_some (as_text (get_field "collapsed" j))
    && is_some (as_items (get_field "hashes" j))

-- A hash that is no text is read as the empty text: `base64UrlToHash` refuses both.
pub read_smt_proof : Json → Option (SerializedSmtProof String)
read_smt_proof j =
    if is_smt_proof j
    then some (record {
      id = from_option "" (as_text (get_field "id" j));
      nonce = truthy_text (get_field "nonce" j);
      update_id = truthy_text (get_field "updateId" j);
      collapsed = from_option "" (as_text (get_field "collapsed" j));
      hashes =
          map (λ h. from_option "" (as_text (some h)))
            (items_to_list (from_option nil (as_items (get_field "hashes" j))));
    })
    else none

unfoldable pub set_signals :
    Dict ℕ (BeaconService × List BeaconSignal)
    → Dict ℕ (BeaconService × List BeaconSignal)
    → Dict ℕ (BeaconService × List BeaconSignal)
set_signals [] signals = signals
set_signals ((object, entry) ∷ rest) signals = set_signals rest (set object entry signals)

-- `new Resolver(didComponents, sidecarData, currentDocument, options)`
unfoldable pub new_resolver :
    String
    → Bytes
    → SidecarData
    → Option Json
    → Option String
    → Option String
    → Option Json
    → Option ℕ
    → Resolver
new_resolver did genesis_bytes sidecar document version_id version_time genesis max = record {
  did = did;
  genesis_bytes = genesis_bytes;
  version_id = version_id;
  version_time = version_time;
  max_discovery_rounds = elim max [
    | none ↦ none
    | some rounds ↦ if ltb 0 rounds then some rounds else none
  ];
  phase = elim document [ none ↦ genesis_document | some _ ↦ beacon_discovery ];
  sidecar = sidecar;
  current_document = document;
  first_object = 0;
  provided_genesis = genesis;
  beacon_signals = [];
  processed_services = [];
  request_cache = [];
  unsorted_updates = [];
  resolved_response = none;
  current_version_id = 1;
  update_hash_history = [];
  discovery_rounds = 0;
}

module _ (env : Env) where
  -- canonicalHash(value, { encoding: 'hex' })
  abbrev pub hex_hash : Json → String
  hex_hash j = env.encode_hex (env.hash_json j)

  pub update_map_of : List SignedUpdate → Dict String SignedUpdate → Dict String SignedUpdate
  update_map_of [] m = m
  update_map_of (u ∷ us) m = update_map_of us (set (hex_hash u.json) u m)

  pub cas_map_of : List CasAnnouncement → Dict String CasAnnouncement → Dict String CasAnnouncement
  cas_map_of [] m = m
  cas_map_of (a ∷ as_) m = cas_map_of as_ (set (hex_hash a.json) a m)

  pub smt_map_of :
      List (SerializedSmtProof String)
      → Dict String (SerializedSmtProof String)
      → Result ResolveError (Dict String (SerializedSmtProof String))
  smt_map_of [] m = ok m
  smt_map_of (p ∷ ps) m = decode_hash env p.id >>= λ id. smt_map_of ps (set (env.encode_hex id) p m)

  pub sidecar_data : Sidecar → Result ResolveError SidecarData
  sidecar_data s = do
    smt_map ← smt_map_of s.smt_proofs []
    ok (record {
      update_map = update_map_of s.updates [];
      cas_map = cas_map_of s.cas_updates [];
      smt_map = smt_map;
    })

  pub provide_genesis : Resolver → Payload → Result ResolveError Resolver
  provide_genesis r data_ = do
    guard (is_record (payload_value data_)) invalid_did_update
    ok (record r { provided_genesis = some (payload_value data_) })

  unfoldable pub provide_signals : Resolver → Payload → Result ResolveError Resolver
  provide_signals r (json_payload j) = err invalid_did_update
  provide_signals r (signals_payload m) = ok (record r { beacon_signals = set_signals m signals })
    where
      open r use {beacon_signals as signals}

  pub provide_cas : Resolver → String → Payload → Result ResolveError Resolver
  provide_cas r expected data_ = do
    announcement ← or_throw (read_cas_announcement (payload_value data_)) invalid_did_update
    guard (hex_hash announcement.json == expected) invalid_did_update
    ok (record r {
      sidecar = record sidecar {
        cas_map = set (hex_hash announcement.json) announcement sidecar.cas_map;
      };
    })
    where
      open r use {sidecar}

  pub provide_update : Resolver → String → Payload → Result ResolveError Resolver
  provide_update r expected data_ = do
    update ← or_throw (read_signed_update (payload_value data_)) invalid_did_update
    guard (hex_hash update.json == expected) invalid_did_update
    ok (record r {
      sidecar = record sidecar {
        update_map = set (hex_hash update.json) update sidecar.update_map;
      };
    })
    where
      open r use {sidecar}

  pub provide_smt : Resolver → String → Payload → Result ResolveError Resolver
  provide_smt r expected data_ = do
    proof ← or_throw (read_smt_proof (payload_value data_)) invalid_did_update
    id ← decode_hash env proof.id
    guard (env.encode_hex id == expected) invalid_did_update
    ok (record r { sidecar = record sidecar { smt_map = set expected proof sidecar.smt_map } })
    where
      open r use {sidecar}

  unfoldable pub provide : Resolver → DataNeed → Payload → Result ResolveError Resolver
  provide r (need_genesis_document hash) data_ = provide_genesis r data_
  provide r (need_beacon_signals services) data_ = provide_signals r data_
  provide r (need_cas_announcement hash service) data_ = provide_cas r hash data_
  provide r (need_signed_update hash service) data_ = provide_update r hash data_
  provide r (need_smt_proof hash service) data_ = provide_smt r hash data_
