-- ===== src/Common/Json/Deletion.antt =====
-- Deleting a key at every depth (`JSONUtils.deleteKeys`) beside deleting it at the top.
use did_btcr2_js.Common.Json.{
  Fields, Items, arr, bool, delete_in_fields, delete_in_items, delete_keys, end, field, item, nil,
  null, num, obj, omit, omit_fields, other_num, str, Json,
}
use did_btcr2_js.Prelude.{[], ap, arith, false, nat_eq, refl, string_eq, ◌==◌, ◌∷◌, ◌≡◌}
use text.Mathlib.TextEquality.{eq_iff}
use Prim.Native.String.{String}

-- The key stands at no depth of the value.
abbrev mutual
  pub Lacks : String → Json → Type 0
  Lacks key null = Unit
  Lacks key (bool b) = Unit
  Lacks key (num n) = Unit
  Lacks key (other_num n) = Unit
  Lacks key (str s) = Unit
  Lacks key (arr xs) = LacksItems key xs
  Lacks key (obj fs) = LacksFields key fs

  pub LacksItems : String → Items → Type 0
  LacksItems key nil = Unit
  LacksItems key (item x xs) = Lacks key x × LacksItems key xs

  pub LacksFields : String → Fields → Type 0
  LacksFields key end = Unit
  LacksFields key (field k v fs) = ((k == key) ≡ false) × Lacks key v × LacksFields key fs

-- The key does not stand inside a field.
abbrev pub NotNested : String → Fields → Type 0
NotNested key end = Unit
NotNested key (field k v fs) = Lacks key v × NotNested key fs

mutual
  unfolding delete_keys

  delete_lacking : (key : String) (v : Json) → Lacks key v → delete_keys (key ∷ []) v ≡ v
  delete_lacking key null l = refl
  delete_lacking key (bool b) l = refl
  delete_lacking key (num n) l = refl
  delete_lacking key (other_num n) l = refl
  delete_lacking key (str s) l = refl
  delete_lacking key (arr xs) l = ap arr (delete_lacking_items key xs l)
  delete_lacking key (obj fs) l = ap obj (delete_lacking_fields key fs l)

  delete_lacking_items :
      (key : String) (xs : Items) → LacksItems key xs → delete_in_items (key ∷ []) xs ≡ xs
  delete_lacking_items key nil l = refl
  delete_lacking_items key (item x xs) l =
      cc (delete_lacking key x l.0, delete_lacking_items key xs l.1)

  delete_lacking_fields :
      (key : String) (fs : Fields) → LacksFields key fs → delete_in_fields (key ∷ []) fs ≡ fs
  delete_lacking_fields key end l = refl
  delete_lacking_fields key (field k v fs) l = ground (
    arith,
    eq_iff k key,
    eq_iff key k,
    delete_lacking key v l.1,
    delete_lacking_fields key fs l.2,
  )

pub delete_keys-omit :
    (key : String) (fs : Fields)
    → NotNested key fs
    → delete_keys (key ∷ []) (obj fs) ≡ omit key (obj fs)
unfolding delete_keys omit
delete_keys-omit key fs l = ap obj (fields fs l)
  where
    fields : (gs : Fields) → NotNested key gs → delete_in_fields (key ∷ []) gs ≡ omit_fields key gs
    fields end l = refl
    fields (field k v gs) l =
        ground (arith, eq_iff k key, eq_iff key k, delete_lacking key v l.0, fields gs l.1)
