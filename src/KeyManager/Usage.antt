-- ===== src/KeyManager/Usage.antt =====
-- `LocalKeyManager` as its clients use it: import and export, signatures, watch-only keys, removal.
use did_btcr2_js.Prelude.Result.{or_throw, ◌>>=◌, >>=-eq-ok, Result, err, guard, guard-eq-ok, ok}
use did_btcr2_js.KeyManager.{
  active_key_delete, bip341, entry_of, key_not_found, sign_error, Curve, KeyEntry, KeyManager,
  KeyManagerError, KeyOptions, KeyPair, Scheme, bip340, check_signature, ecdsa, export_key,
  find_entry, import_id, import_key, is_active, key_found, key_not_signer, put_entry, remove_key,
  sign, verify,
}
use did_btcr2_js.Prelude.Dict.{delete, get, get-delete, get-set, has}
use did_btcr2_js.Prelude.{
  inl, inr, Bool, Option, arith, drop, false, if◌then◌else◌, nat_eq, none, not, refl, some,
  string_eq, take, true, ◌&&◌, ◌==◌, ◌≡◌, ◌⊎◌,
}
use Prim.Native.String.{String}
use text.Mathlib.TextPositions.{eq_refl}
use did_btcr2_js.Smt.Hash.{Bytes}

find_entry_of :
    (m : KeyManager) (id : String) (x : KeyEntry)
    → (id == "") ≡ false
    → get id m.store ≡ some x
    → find_entry m (some id) ≡ ok x
unfolding find_entry
find_entry_of m id x full e = rw (full, e)

import_key-inv :
    (curve : Curve) (m m' : KeyManager) (pair : KeyPair) (options : KeyOptions) (id : String)
    → import_key curve m pair options ≡ ok (m', id)
    → get id m'.store ≡ some (entry_of pair options.tags)
unfolding import_key put_entry
import_key-inv curve m m' pair options id e =
    let new = import_id curve pair options in
    let (t, free, made) =
      >>=-eq-ok (guard (not (has new m.store)) key_found)
        (λ _. ok (put_entry m new (entry_of pair options.tags) options.set_active, new)) e in
    ground (arith, made, get-set new new (entry_of pair options.tags) m.store, eq_refl new)

signed_by :
    (x : Option Bytes) (f : Bytes → Option Bytes) (signature : Bytes)
    → (or_throw x key_not_signer >>= λ s. or_throw (f s) sign_error) ≡ ok signature
    → (s : Bytes) × (x ≡ some s) × (f s ≡ some signature)
signed_by none f signature e = cc
signed_by (some s) f signature e = (s, refl, signed (f s) e)
  where
    signed : (y : Option Bytes) → or_throw y sign_error ≡ ok signature → y ≡ some signature
    signed none e' = cc
    signed (some p) e' = ground (arith, e')

-- A pair whose public key belongs to its secret key comes back unchanged from `exportKey`, and so does
-- a watch-only pair, after `importKey` under an identifier that is not empty.
pub export_key-import_key :
    (curve : Curve) (m m' : KeyManager) (pair : KeyPair) (options : KeyOptions) (id : String)
    → ((secret : Bytes) → pair.secret ≡ some secret → curve.public_of secret ≡ pair.compressed)
    → (id == "") ≡ false
    → import_key curve m pair options ≡ ok (m', id)
    → export_key curve m' id ≡ ok pair
unfolding export_key
export_key-import_key curve m m' pair options id own full e =
    let found = find_entry_of m' id _ full (import_key-inv curve m m' pair options id e) in
    rw found (go pair.secret refl)
  where
    go :
        (x : Option Bytes)
        → pair.secret ≡ x
        → elim x as (λ _. Result KeyManagerError KeyPair) [
          | some secret ↦ ok (record { compressed = curve.public_of secret; secret = some secret })
          | none ↦ ok (record { compressed = pair.compressed; secret = none })
        ]
          ≡ ok pair
    go none s = ground (arith, s)
    go (some secret) s = ground (arith, s, own secret s)

-- A signature that the manager makes with an imported key verifies under that key, for BIP-340 and
-- ECDSA, if the curve library verifies what it has signed with the secret of that public key.
pub verify-sign :
    (curve : Curve) (m m' : KeyManager) (pair : KeyPair) (options : KeyOptions) (id : String)
    (payload signature : Bytes) (merkle_root : Option Bytes)
    → ((s p : Bytes)
        → curve.sign_with_scheme s payload bip340 merkle_root ≡ some p
        → curve.verify_schnorr p payload (take 32 (drop 1 (curve.public_of s))) ≡ true)
    → ((s p : Bytes)
        → curve.sign_with_scheme s payload ecdsa merkle_root ≡ some p
        → curve.verify_ecdsa p payload (curve.public_of s) ≡ true)
    → ((secret : Bytes) → pair.secret ≡ some secret → curve.public_of secret ≡ pair.compressed)
    → (id == "") ≡ false
    → import_key curve m pair options ≡ ok (m', id)
    → (scheme : Scheme) → (scheme ≡ bip340) ⊎ (scheme ≡ ecdsa)
    → sign curve m' payload (some id) scheme merkle_root ≡ ok signature
    → verify curve m' signature payload (some id) scheme ≡ ok true
unfolding sign verify check_signature
verify-sign curve m m' pair options id payload signature root schnorr ecdsa_ok own full e scheme w
      h =
    let found = find_entry_of m' id _ full (import_key-inv curve m m' pair options id e) in
    let (s, has_secret, made) =
      signed_by pair.secret (λ x. curve.sign_with_scheme x payload scheme root) signature
        (rw found at h) in
    rw (found, ← own s has_secret) (checked scheme w s made)
  where
    checked :
        (x : Scheme)
        → (x ≡ bip340) ⊎ (x ≡ ecdsa)
        → (s : Bytes) → curve.sign_with_scheme s payload x root ≡ some signature
        → check_signature curve
            (record {
              public_key = curve.public_of s;
              secret_key = pair.secret;
              tags = options.tags;
            })
            signature
            payload
            x
          ≡ ok true
    checked bip340 k s made = rw (schnorr s signature made) refl
    checked ecdsa k s made = rw (ecdsa_ok s signature made) refl
    checked bip341 (inl k) s made = cc
    checked bip341 (inr k) s made = cc

-- A key without a secret never signs.
pub sign_watch_only :
    (curve : Curve) (m m' : KeyManager) (pair : KeyPair) (options : KeyOptions) (id : String)
    (payload : Bytes) (scheme : Scheme) (merkle_root : Option Bytes)
    → pair.secret ≡ none
    → (id == "") ≡ false
    → import_key curve m pair options ≡ ok (m', id)
    → sign curve m' payload (some id) scheme merkle_root ≡ err key_not_signer
unfolding sign
sign_watch_only curve m m' pair options id payload scheme root watch full e =
    let found = find_entry_of m' id _ full (import_key-inv curve m m' pair options id e) in
    rw found (rw watch refl)

-- After `removeKey` the key is gone and every other key is as it was; the active key is removed only by
-- force, and then no key is active.
pub remove_key-get :
    (m m' : KeyManager) (id : String) (force : Bool)
    → remove_key m id force ≡ ok m'
    → ((j : String) → get j m'.store ≡ (if id == j then none else get j m.store))
      × (m.active_key_id ≡ some id → (force ≡ true) × (m'.active_key_id ≡ none))
unfolding remove_key
remove_key-get m m' id force e =
    let allowed = not (is_active m.active_key_id id && not force) in
    let rest : KeyManager = record {
      store = delete id m.store;
      active_key_id = if is_active m.active_key_id id then none else m.active_key_id;
    } in
    let (t, granted, e1) =
      >>=-eq-ok (guard allowed active_key_delete)
        (λ _. guard (has id m.store) key_not_found >>= λ _. ok rest) e in
    let (t', there, e2) = >>=-eq-ok (guard (has id m.store) key_not_found) (λ _. ok rest) e1 in
    (
      λ j. ground (arith, e2, get-delete id j m.store),
      λ a. ground (arith, a, e2, guard-eq-ok allowed active_key_delete granted, eq_refl id),
    )
