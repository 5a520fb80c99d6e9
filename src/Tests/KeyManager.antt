-- ===== src/Tests/KeyManager.antt =====
-- The theorems on the key manager at work, with a signature scheme that copies the key's byte.
use did_btcr2_js.Prelude.{
  Bool, [], arith, drop, if◌then◌else◌, inl, nat_eq, none, refl, some, string_eq, take, true, ◌==◌,
  ◌∷◌, ◌≡◌,
}
use did_btcr2_js.KeyManager.{
  Curve, KeyManager, KeyOptions, KeyPair, Tags, bip340, ecdsa, entry_of, export_key, find_entry,
  generate_key, import_key, key_not_signer, new_manager, put_entry, remove_key, set_active_key,
  sign, verify,
}
use did_btcr2_js.Tests.Toy.{bytes_equal, bytes_equal_iff}
use did_btcr2_js.KeyManager.Invariant.{IsSound, new_manager-IsSound, operations-IsSound}
use Prim.Native.String.{String}
use did_btcr2_js.KeyManager.Usage.{
  export_key-import_key, remove_key-get, sign_watch_only, verify-sign,
}
use did_btcr2_js.Prelude.Dict.{delete, get, set}
use did_btcr2_js.Smt.Hash.{Bytes}
use did_btcr2_js.Prelude.Result.{Holds, err, ok}

abbrev curve : Curve
curve = record {
  sha256 = λ m. m;
  public_of = λ s. 2 ∷ s;
  sign_with_scheme = λ s p scheme root. some s;
  verify_ecdsa = λ signature p key. bytes_equal (2 ∷ signature) key;
  verify_schnorr = λ signature p key. bytes_equal (take 32 signature) key;
}

abbrev pair : KeyPair
pair = record { compressed = 2 ∷ 9 ∷ []; secret = some (9 ∷ []) }

abbrev watch_pair : KeyPair
watch_pair = record { compressed = 2 ∷ 9 ∷ []; secret = none }

abbrev named : KeyOptions
named = record { id = some "key"; tags = none; set_active = true }

abbrev with_key : KeyPair → KeyManager
with_key p = record { store = ("key", entry_of p none) ∷ []; active_key_id = some "key" }

import_test : import_key curve new_manager pair named ≡ ok (with_key pair, "key")
unfolding import_key new_manager put_entry get set
import_test = refl

watch_import_test : import_key curve new_manager watch_pair named ≡ ok (with_key watch_pair, "key")
unfolding import_key new_manager put_entry get set
watch_import_test = refl

owns : (secret : Bytes) → pair.secret ≡ some secret → curve.public_of secret ≡ pair.compressed
owns secret e = ground (arith, e)

operations-IsSound_example :
    ((id : String) → Holds IsSound (set_active_key new_manager id))
    × ((p : KeyPair) (options : KeyOptions)
        → Holds (λ r. IsSound r.0) (import_key curve new_manager p options))
    × ((id : String) (force : Bool) → Holds IsSound (remove_key new_manager id force))
    × ((p : KeyPair) (tags : Tags) (active : Bool)
        → IsSound (generate_key curve new_manager p tags active).0)
operations-IsSound_example = operations-IsSound curve new_manager new_manager-IsSound

export_key-import_key_example : export_key curve (with_key pair) "key" ≡ ok pair
export_key-import_key_example =
    export_key-import_key curve new_manager (with_key pair) pair named "key" owns refl import_test

sign_test : sign curve (with_key pair) (1 ∷ []) (some "key") bip340 none ≡ ok (9 ∷ [])
unfolding sign find_entry get
sign_test = refl

schnorr_holds :
    (s p : Bytes)
    → curve.sign_with_scheme s (1 ∷ []) bip340 none ≡ some p
    → curve.verify_schnorr p (1 ∷ []) (take 32 (drop 1 (curve.public_of s))) ≡ true
schnorr_holds s p e = ground (arith, e, bytes_equal_iff (take 32 p) (take 32 s))

ecdsa_holds :
    (s p : Bytes)
    → curve.sign_with_scheme s (1 ∷ []) ecdsa none ≡ some p
    → curve.verify_ecdsa p (1 ∷ []) (curve.public_of s) ≡ true
ecdsa_holds s p e = ground (arith, e, bytes_equal_iff (2 ∷ p) (2 ∷ s))

verify-sign_example : verify curve (with_key pair) (9 ∷ []) (1 ∷ []) (some "key") bip340 ≡ ok true
verify-sign_example =
    verify-sign curve new_manager (with_key pair) pair named "key" (1 ∷ []) (9 ∷ []) none
      schnorr_holds ecdsa_holds owns refl import_test bip340 (inl refl) sign_test

sign_watch_only_example :
    sign curve (with_key watch_pair) (1 ∷ []) (some "key") bip340 none ≡ err key_not_signer
sign_watch_only_example =
    sign_watch_only curve new_manager (with_key watch_pair) watch_pair named "key" (1 ∷ []) bip340
      none refl refl watch_import_test

remove_test :
    remove_key (with_key pair) "key" true ≡ ok (record { store = []; active_key_id = none })
unfolding remove_key get delete
remove_test = refl

abbrev emptied : KeyManager
emptied = record { store = []; active_key_id = none }

remove_key-get_example :
    ((j : String)
      → get j emptied.store ≡ (if "key" == j then none else get j (with_key pair).store))
    × ((with_key pair).active_key_id ≡ some "key" → (true ≡ true) × (emptied.active_key_id ≡ none))
remove_key-get_example = remove_key-get (with_key pair) emptied "key" true remove_test
