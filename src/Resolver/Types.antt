-- ===== src/Resolver/Types.antt =====
-- The data of packages/method/src/core/resolver.ts, types.ts and beacon/interfaces.ts, and the
-- functions that the resolver takes from npm packages and from JavaScript.
use did_btcr2_js.Common.Json.{Json}
use did_btcr2_js.Prelude.{Bool, List, Option, ℕ}
use Prim.Native.String.{String}
use did_btcr2_js.Smt.Hash.{Bytes, Crypto, Error}
use did_btcr2_js.Prelude.Dict.{Dict}
use did_btcr2_js.Smt.Proof.{SerializedSmtProof}

-- `hash_json` is canonicalHashBytes (json-canonicalize and sha256), `apply_patch` is applyPatch of
-- fast-json-patch (`none` when it throws), `verify_proof` the data integrity check of a signed
-- update by a verification method (`none` when it throws), `did_method` the method that Did.parse of
-- @web5/dids finds. `parse_date` gives the milliseconds of `new Date(text)`, `none` for an invalid
-- date; `parse_number` is Number(text), `none` for NaN; `replace_all text from to` is replaceAll.
-- `new_document` is the constructor of DidDocument (`none` when it throws), `valid_document` says
-- whether DidDocument.validate returns.
pub record Env : Type 0 where
  pub crypto : Crypto String
  pub hash_json : Json → Bytes
  pub encode_hex : Bytes → String
  pub apply_patch : Json → Json → Option Json
  pub verify_proof : Json → Json → Option Bool
  pub valid_document : Json → Bool
  pub did_method : String → Option String
  pub decode_uri_component : String → Option String
  pub parse_date : String → Option ℕ
  pub parse_number : String → Option ℕ
  pub iso_text : ℕ → String
  pub replace_all : String → String → String → String
  pub new_document : Json → Option Json

pub data ResolveError : Type 0 where
  invalid_did_document invalid_did_update late_publishing internal_error : ResolveError
  invalid_did method_not_supported invalid_hash_text json_patch_apply : ResolveError
  beacon_service invalid_beacon invalid_smt_proof : ResolveError
  smt : Error → ResolveError

pub record Proof : Type 0 where
  pub capability : Option String
  pub verification_method : Option String

-- A `SignedBTCR2Update`: the JSON object itself, and the properties that are read from it.
pub record SignedUpdate : Type 0 where
  pub json : Json
  pub patch : Json
  pub source_hash : String
  pub target_hash : String
  pub target_version_id : ℕ
  pub proof : Option Proof

pub record BlockMetadata : Type 0 where
  pub height : ℕ
  pub time : ℕ
  pub confirmations : ℕ

-- A `BeaconService`. `object` stands for the identity of the JavaScript object, which is what a `Map`
-- with objects for keys compares.
pub record BeaconService : Type 0 where
  pub object : ℕ
  pub id : String
  pub type_name : String
  pub service_endpoint : String

pub record BeaconSignal : Type 0 where
  pub signal_bytes : String
  pub block_metadata : BlockMetadata

-- `metadata.versionId`: the decimal text of a number, or the text that the caller asked for.
pub data VersionText : Type 0 where
  decimal : ℕ → VersionText
  given : String → VersionText

pub record Response : Type 0 where
  pub did_document : Json
  pub version_id : VersionText
  pub confirmations : Option ℕ
  pub updated : Option String
  pub deactivated : Bool

pub data DataNeed : Type 0 where
  need_genesis_document : String → DataNeed
  need_beacon_signals : List BeaconService → DataNeed
  need_cas_announcement need_signed_update need_smt_proof : String → String → DataNeed

-- A CAS announcement: the JSON object, and its entries.
pub record CasAnnouncement : Type 0 where
  pub json : Json
  pub entries : Dict String String

pub record SidecarData : Type 0 where
  pub update_map : Dict String SignedUpdate
  pub cas_map : Dict String CasAnnouncement
  pub smt_map : Dict String (SerializedSmtProof String)
