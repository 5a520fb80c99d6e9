-- ===== src/KeyManager/Invariant.antt =====
-- The active key and the store of `LocalKeyManager` under its operations.
use did_btcr2_js.KeyManager.{
  Curve, KeyEntry, KeyManager, KeyOptions, KeyPair, Tags, active_key_delete, find_entry,
  generate_key, generate_urn, import_id, import_key, is_active, key_found, key_not_found,
  new_manager, put_entry, remove_key, set_active_key,
}
use did_btcr2_js.Prelude.Result.{Holds, Holds->>=, guard, ok}
use did_btcr2_js.Prelude.{
  Bool, Option, arith, false, if◌then◌else◌, nat_eq, none, not, refl, some, string_eq, true, ◌&&◌,
  ◌≡◌,
}
use did_btcr2_js.Prelude.Dict.{
  Distinct, Distinct-delete, Distinct-set, delete, get-delete, get-set, has, set,
}
use Prim.Native.String.{String}
use text.Mathlib.TextEquality.{eq_iff}

pub record IsSound (m : KeyManager) : Type 0 where
  pub stored : (id : String) → m.active_key_id ≡ some id → has id m.store ≡ true
  pub distinct : Distinct m.store

pub new_manager-IsSound : IsSound new_manager
unfolding new_manager
new_manager-IsSound = record { stored = λ id e. cc; distinct = tt }

put_entry-IsSound :
    (m : KeyManager) (id : String) (entry : KeyEntry) (active : Bool)
    → IsSound m
    → IsSound (put_entry m id entry active)
unfolding put_entry
put_entry-IsSound m id entry active s = record {
  stored = λ j e. stored active j e;
  distinct = Distinct-set id entry m.store s.distinct;
}
  where
    stored :
        (b : Bool) (j : String)
        → (if b then some id else m.active_key_id) ≡ some j
        → has j (set id entry m.store) ≡ true
    stored true j e = ground (arith, e, get-set id j entry m.store, eq_iff id j)
    stored false j e = ground (arith, s.stored j e, get-set id j entry m.store, eq_iff id j)

find_entry-has :
    (m : KeyManager) (id : String) (x : KeyEntry)
    → find_entry m (some id) ≡ ok x
    → has id m.store ≡ true
unfolding find_entry
find_entry-has m id x e = ground (arith, e)

set_active_key-IsSound :
    (m : KeyManager) (id : String) → IsSound m → Holds IsSound (set_active_key m id)
unfolding set_active_key
set_active_key-IsSound m id s = Holds->>= IsSound (find_entry m (some id)) _ (λ x e. record {
  stored = λ j same. ground (arith, find_entry-has m id x e, same);
  distinct = s.distinct;
})

import_key-IsSound :
    (curve : Curve) (m : KeyManager) (pair : KeyPair) (options : KeyOptions)
    → IsSound m
    → Holds (λ r. IsSound r.0) (import_key curve m pair options)
unfolding import_key
import_key-IsSound curve m pair options s =
    Holds->>= {B = KeyManager × String} (λ r. IsSound r.0)
      (guard (not (has (import_id curve pair options) m.store)) key_found) _
      (λ t e. put_entry-IsSound m (import_id curve pair options) _ options.set_active s)

remove_key-IsSound :
    (m : KeyManager) (id : String) (force : Bool)
    → IsSound m
    → Holds IsSound (remove_key m id force)
unfolding remove_key
remove_key-IsSound m id force s =
    Holds->>= IsSound (guard (not (is_active m.active_key_id id && not force)) active_key_delete) _
      (λ t e. Holds->>= IsSound (guard (has id m.store) key_not_found) _ (λ t' e'. record {
        stored = λ j h. stored m.active_key_id j refl h;
        distinct = Distinct-delete id m.store s.distinct;
      }))
  where
    stored :
        (a : Option String) (j : String)
        → m.active_key_id ≡ a
        → (if is_active a id then none else a) ≡ some j
        → has j (delete id m.store) ≡ true
    stored none j same h = cc
    stored (some a) j same h =
        ground (arith, s.stored a same, get-delete id j m.store, eq_iff a id, eq_iff id j, h)

-- Every operation that changes the manager keeps the active key in the store and the identifiers
-- distinct: `setActiveKey`, `importKey`, `removeKey` with and without `force`, and `generateKey`.
pub operations-IsSound :
    (curve : Curve) (m : KeyManager)
    → IsSound m
    → ((id : String) → Holds IsSound (set_active_key m id))
      × ((pair : KeyPair) (options : KeyOptions)
          → Holds (λ r. IsSound r.0) (import_key curve m pair options))
      × ((id : String) (force : Bool) → Holds IsSound (remove_key m id force))
      × ((pair : KeyPair) (tags : Tags) (active : Bool)
          → IsSound (generate_key curve m pair tags active).0)
unfolding generate_key
operations-IsSound curve m s = (
  λ id. set_active_key-IsSound m id s,
  λ pair options. import_key-IsSound curve m pair options s,
  λ id force. remove_key-IsSound m id force s,
  λ pair tags active. put_entry-IsSound m (generate_urn curve pair.compressed) _ active s,
)
