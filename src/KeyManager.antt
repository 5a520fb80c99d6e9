-- ===== src/KeyManager.antt =====
-- packages/key-manager/src/local-key-manager.ts: `LocalKeyManager` over a `MemoryStore`. The curve
-- operations of packages/keypair and @noble/curves are the record `Curve`; the random pair of
-- `SchnorrKeyPair.generate` is an argument of `generate_key`.
pub mod Usage
pub mod Invariant
use did_btcr2_js.Prelude.{
  Bool, List, Option, [], drop, false, from_option, get_elem?, if◌then◌else◌, map, nat_eq, none,
  not, some, string_eq, take, ◌%◌, ◌&&◌, ◌/◌, ◌==◌, ◌∷◌,
}
use did_btcr2_js.Prelude.Result.{Result, err, guard, ok, or_throw, ◌>>=◌, ◌>>◌}
use did_btcr2_js.Prelude.Dict.{Dict, delete, get, has, set}
use Prim.Native.String
use Prim.Native.String.{String}
use did_btcr2_js.Smt.Hash.{Bytes}

abbrev pub Tags : Type 0
Tags = Option (Dict String String)

pub record KeyEntry : Type 0 where
  pub public_key : Bytes
  pub secret_key : Option Bytes
  pub tags : Tags

-- A `SchnorrKeyPair`: `secret` is `none` where `hasSecretKey` is false.
pub record KeyPair : Type 0 where
  pub compressed : Bytes
  pub secret : Option Bytes

pub record KeyManager : Type 0 where
  pub store : Dict String KeyEntry
  pub active_key_id : Option String

pub data Scheme : Type 0 where
  bip340 ecdsa bip341 : Scheme

-- `sign_with_scheme secret data scheme merkleRoot`, `none` when it throws; `public_of` is the
-- compressed public key that `new SchnorrKeyPair({ secretKey })` derives.
pub record Curve : Type 0 where
  pub sha256 : Bytes → Bytes
  pub public_of : Bytes → Bytes
  pub sign_with_scheme : Bytes → Bytes → Scheme → Option Bytes → Option Bytes
  pub verify_ecdsa : Bytes → Bytes → Bytes → Bool
  pub verify_schnorr : Bytes → Bytes → Bytes → Bool

pub data KeyManagerError : Type 0 where
  active_key_not_set key_not_found key_not_signer key_found active_key_delete : KeyManagerError
  verify_error sign_error : KeyManagerError

pub record KeyOptions : Type 0 where
  pub id : Option String
  pub tags : Tags
  pub set_active : Bool

abbrev digits : List String
digits =
    "0" ∷ "1" ∷ "2" ∷ "3" ∷ "4" ∷ "5" ∷ "6" ∷ "7" ∷ "8" ∷ "9" ∷ "a" ∷ "b" ∷ "c" ∷ "d" ∷ "e" ∷ "f"
    ∷ []

-- `Array.from(bytes).map(b => b.toString(16).padStart(2, '0')).join('')`
pub hex_text : Bytes → String
hex_text [] = ""
hex_text (b ∷ bs) =
    String.◌++◌ (from_option "" (get_elem? digits (b / 16)))
      (String.◌++◌ (from_option "" (get_elem? digits (b % 16))) (hex_text bs))

unfoldable pub new_manager : KeyManager
new_manager = record { store = []; active_key_id = none }

-- `id ?? this.#activeKeyId`
abbrev pub chosen : KeyManager → Option String → Option String
chosen m none = m.active_key_id
chosen m (some id) = some id

unfoldable pub find_entry : KeyManager → Option String → Result KeyManagerError KeyEntry
find_entry m none = err active_key_not_set
find_entry m (some key_id) =
    if key_id == "" then err active_key_not_set else or_throw (get key_id m.store) key_not_found

-- `#getEntryOrThrow`
abbrev pub get_entry_or_throw : KeyManager → Option String → Result KeyManagerError KeyEntry
get_entry_or_throw m id = find_entry m (chosen m id)

pub set_active_key : KeyManager → String → Result KeyManagerError KeyManager
set_active_key m id = do
  entry ← get_entry_or_throw m (some id)
  ok (record m { active_key_id = some id })

pub get_public_key : KeyManager → Option String → Result KeyManagerError Bytes
get_public_key m id = do entry ← get_entry_or_throw m id; ok entry.public_key

pub get_entry : KeyManager → Option String → Result KeyManagerError (Bytes × Tags)
get_entry m id = do entry ← get_entry_or_throw m id; ok (entry.public_key, entry.tags)

abbrev pub entry_of : KeyPair → Tags → KeyEntry
entry_of pair tags = record { public_key = pair.compressed; secret_key = pair.secret; tags = tags }

-- The store of `importKey` and `generateKey`, and what `setActive` does.
unfoldable pub put_entry : KeyManager → String → KeyEntry → Bool → KeyManager
put_entry m id entry set_active = record {
  store = set id entry m.store;
  active_key_id = if set_active then some id else m.active_key_id;
}

-- `this.#activeKeyId === id`
abbrev pub is_active : Option String → String → Bool
is_active none id = false
is_active (some active) id = active == id

unfoldable pub remove_key : KeyManager → String → Bool → Result KeyManagerError KeyManager
remove_key m id force = do
  guard (not (is_active m.active_key_id id && not force)) active_key_delete
  guard (has id m.store) key_not_found
  ok (record {
    store = delete id m.store;
    active_key_id = if is_active m.active_key_id id then none else m.active_key_id;
  })

pub list_keys : KeyManager → List String
list_keys m = map (λ x. x.0) m.store

module _ (curve : Curve) where
  pub generate_urn : Bytes → String
  generate_urn public_key =
      String.◌++◌ "urn:kms:secp256k1:" (hex_text (take 16 (curve.sha256 public_key)))

  unfoldable pub sign :
      KeyManager → Bytes → Option String → Scheme → Option Bytes → Result KeyManagerError Bytes
  sign m payload id scheme merkle_root = do
    entry ← get_entry_or_throw m id
    secret ← or_throw entry.secret_key key_not_signer
    or_throw (curve.sign_with_scheme secret payload scheme merkle_root) sign_error

  pub check_signature : KeyEntry → Bytes → Bytes → Scheme → Result KeyManagerError Bool
  check_signature entry signature payload ecdsa =
      ok (curve.verify_ecdsa signature payload entry.public_key)
  check_signature entry signature payload bip340 =
      ok (curve.verify_schnorr signature payload (take 32 (drop 1 entry.public_key)))
  check_signature entry signature payload bip341 = err verify_error

  pub verify : KeyManager → Bytes → Bytes → Option String → Scheme → Result KeyManagerError Bool
  verify m signature payload id scheme = do
    entry ← get_entry_or_throw m id
    check_signature entry signature payload scheme

  abbrev pub import_id : KeyPair → KeyOptions → String
  import_id pair options = from_option (generate_urn pair.compressed) options.id

  unfoldable pub import_key :
      KeyManager → KeyPair → KeyOptions → Result KeyManagerError (KeyManager × String)
  import_key m pair options = do
    guard (not (has (import_id pair options) m.store)) key_found
    ok (
      put_entry m (import_id pair options) (entry_of pair options.tags) options.set_active,
      import_id pair options,
    )

  pub digest : Bytes → Bytes
  digest payload = curve.sha256 payload

  -- `pair` is what `SchnorrKeyPair.generate()` gives, its secret among it.
  pub generate_key : KeyManager → KeyPair → Tags → Bool → KeyManager × String
  generate_key m pair tags set_active =
      let id = generate_urn pair.compressed in
      (
        put_entry m id
            (record { public_key = pair.compressed; secret_key = pair.secret; tags = tags })
            set_active,
        id,
      )

  pub export_key : KeyManager → String → Result KeyManagerError KeyPair
  export_key m id = do
    entry ← get_entry_or_throw m (some id)
    elim entry.secret_key [
      | some secret ↦ ok (record { compressed = curve.public_of secret; secret = some secret })
      | none ↦ ok (record { compressed = entry.public_key; secret = none })
    ]
