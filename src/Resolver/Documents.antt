-- ===== src/Resolver/Documents.antt =====
-- What the resolver reads from a DID document: packages/method/src/utils/appendix.ts
-- (extractDidFragment, isDidService, dereferenceZcapId), src/core/beacon/utils.ts
-- (parseBitcoinAddress, isBeaconService, getBeaconServices) and `DidBtcr2.getSigningMethod`.
use did_btcr2_js.Common.Json.{
  Items, as_items, as_text, get_field, is_true, item, items_to_list, nil, str, Json,
}
use did_btcr2_js.Common.Text.{first_part, split, strip_prefix}
use did_btcr2_js.Prelude.{
  Bool, List, Option, [], false, from_option, if◌then◌else◌, is_some, nat_eq, none, some, string_eq,
  true, ℕ, ◌&&◌, ◌+◌, ◌==◌, ◌||◌, ◌∷◌,
}
use did_btcr2_js.Resolver.Types.{
  BeaconService, Env, ResolveError, beacon_service, internal_error, method_not_supported,
}
use did_btcr2_js.Prelude.Result.{◌>>=◌, ◌>>◌, Result, err, guard, ok, or_throw}
use Prim.Native.String.{String}

abbrev opt_text_eq : Option String → Option String → Bool
opt_text_eq none none = true
opt_text_eq (some a) (some b) = a == b
opt_text_eq none (some b) = false
opt_text_eq (some a) none = false

-- `undefined` unless the value is a text that is not empty.
unfoldable pub extract_did_fragment : Option Json → Option String
extract_did_fragment input = elim (as_text input) [
  | none ↦ none
  | some s ↦ if s == "" then none else some s
]

unfoldable pub parse_bitcoin_address : String → Result ResolveError String
parse_bitcoin_address uri = elim (strip_prefix "bitcoin:" uri) [
  | none ↦ err beacon_service
  | some rest ↦ ok (first_part b'?' rest)
]

abbrev pub is_beacon_type : String → Bool
is_beacon_type t = t == "SingletonBeacon" || t == "CASBeacon" || t == "SMTBeacon"

-- `isDidService` and `isBeaconService`, giving the service that the object then is read as.
unfoldable pub read_beacon_service : ℕ → Json → Option BeaconService
read_beacon_service object j = elim (as_text (get_field "id" j)) [
  | none ↦ none
  | some id ↦ elim (as_text (get_field "type" j)) [
    | none ↦ none
    | some t ↦ elim (as_text (get_field "serviceEndpoint" j)) [
      | none ↦ none
      | some endpoint ↦
          if is_beacon_type t && is_some (strip_prefix "bitcoin:" endpoint)
          then some
              (record { object = object; id = id; type_name = t; service_endpoint = endpoint })
          else none
    ]
  ]
]

-- The filter of `getBeaconServices`. The objects of one document are told apart by their place,
-- counted from `first`, which names the document.
unfoldable pub beacon_services_from : ℕ → Items → List BeaconService
beacon_services_from object nil = []
beacon_services_from object (item x xs) =
    let rest = beacon_services_from (object + 1) xs in
    elim (read_beacon_service object x) [ none ↦ rest | some s ↦ s ∷ rest ]

-- A document that the constructor or DidDocument.validate has accepted has a list of services; without
-- one the source throws, where this gives none.
unfoldable pub get_beacon_services : ℕ → Json → List BeaconService
get_beacon_services first document = elim (as_items (get_field "service" document)) [
  | none ↦ []
  | some xs ↦ beacon_services_from first xs
]

-- The identifier that a root capability names: `none` where dereferenceZcapId throws.
unfoldable pub dereference_zcap_id : Env → String → Option String
dereference_zcap_id env capability_id = elim (split b':' capability_id) [
  | urn ∷ zcap ∷ root ∷ [] ↦
      if urn == "urn" && zcap == "zcap" && root == "root"
      then env.decode_uri_component "undefined"
      else none
  | urn ∷ zcap ∷ root ∷ did ∷ rest ↦
      if urn == "urn" && zcap == "zcap" && root == "root"
      then env.decode_uri_component did
      else none
  | _ ↦ none
]

unfoldable pub find_method : Option String → List Json → Option Json
find_method wanted [] = none
find_method wanted (vm ∷ vms) =
    if opt_text_eq (extract_did_fragment (get_field "id" vm)) wanted
    then some vm
    else find_method wanted vms

abbrev first_item : Option Items → Option Json
first_item (some (item x xs)) = some x
first_item _ = none

abbrev or_else : Option String → Option String → Option String
or_else (some s) other = some s
or_else none other = other

-- The method that is looked for: the given one, '#initialKey' if there is none, and the first
-- assertion method if it is the empty text.
unfoldable pub wanted_method : Json → Option String → Option String
unfolding extract_did_fragment
wanted_method document method_id =
    or_else (extract_did_fragment (some (str (from_option "#initialKey" method_id))))
      (extract_did_fragment (first_item (as_items (get_field "assertionMethod" document))))

unfoldable pub get_signing_method : Env → Json → Option String → Result ResolveError Json
unfolding find_method wanted_method
get_signing_method env document method_id = do
  guard
      (elim (env.did_method (from_option "" (as_text (get_field "id" document)))) [
        | none ↦ true
        | some m ↦ m == "btcr2"
      ])
      method_not_supported
  vm ←
      or_throw
        (find_method (wanted_method document method_id)
          (items_to_list (from_option nil (as_items (get_field "verificationMethod" document)))))
        internal_error
  guard (is_true (get_field "publicKeyMultibase" vm)) internal_error
  ok vm
