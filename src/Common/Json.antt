-- ===== src/Common/Json.antt =====
-- packages/common/src/utils/json.ts: JSON values and `JSONUtils.deleteKeys`.
-- A number is `num` where it is a non-negative integer, and `other_num` with some name otherwise.
pub mod Deletion
use did_btcr2_js.Prelude.{
  List, Option, [], false, if◌then◌else◌, nat_beq, nat_eq, none, not, some, string_eq, true, ℕ,
  ◌==◌, ◌∷◌, Bool,
}
use did_btcr2_js.Prelude.Dict.{includes}
use Prim.Native.String.{String}

mutual
  pub data Json : Type 0 where
    null : Json
    bool : Bool → Json
    num : ℕ → Json
    other_num : ℕ → Json
    str : String → Json
    arr : Items → Json
    obj : Fields → Json

  pub data Items : Type 0 where
    nil : Items
    item : Json → Items → Items

  pub data Fields : Type 0 where
    end : Fields
    field : String → Json → Fields → Fields

-- `deleteKeys(value, keys)`: the keys go at every depth.
unfoldable mutual
  pub delete_keys : List String → Json → Json
  delete_keys keys null = null
  delete_keys keys (bool b) = bool b
  delete_keys keys (num n) = num n
  delete_keys keys (other_num n) = other_num n
  delete_keys keys (str s) = str s
  delete_keys keys (arr xs) = arr (delete_in_items keys xs)
  delete_keys keys (obj fs) = obj (delete_in_fields keys fs)

  pub delete_in_items : List String → Items → Items
  delete_in_items keys nil = nil
  delete_in_items keys (item x xs) = item (delete_keys keys x) (delete_in_items keys xs)

  pub delete_in_fields : List String → Fields → Fields
  delete_in_fields keys end = end
  delete_in_fields keys (field k v fs) =
      if includes k keys
      then delete_in_fields keys fs
      else field k (delete_keys keys v) (delete_in_fields keys fs)

-- `const { key: _, ...rest } = value`: the key goes at the top only.
unfoldable pub omit_fields : String → Fields → Fields
omit_fields key end = end
omit_fields key (field k v fs) =
    if k == key then omit_fields key fs else field k v (omit_fields key fs)

unfoldable pub omit : String → Json → Json
unfolding omit_fields
omit key (obj fs) = obj (omit_fields key fs)
omit key null = null
omit key (bool b) = bool b
omit key (num n) = num n
omit key (other_num n) = other_num n
omit key (str s) = str s
omit key (arr xs) = arr xs

unfoldable pub get_in : String → Fields → Option Json
get_in key end = none
get_in key (field k v fs) = if k == key then some v else get_in key fs

-- `value[key]`, `none` for undefined.
unfoldable pub get_field : String → Json → Option Json
unfolding get_in
get_field key (obj fs) = get_in key fs
get_field key null = none
get_field key (bool b) = none
get_field key (num n) = none
get_field key (other_num n) = none
get_field key (str s) = none
get_field key (arr xs) = none

-- Views of a value that is there and has the type asked for.
abbrev pub as_text : Option Json → Option String
as_text (some (str s)) = some s
as_text _ = none

abbrev pub as_fields : Option Json → Option Fields
as_fields (some (obj fs)) = some fs
as_fields _ = none

abbrev pub as_items : Option Json → Option Items
as_items (some (arr xs)) = some xs
as_items _ = none

abbrev pub as_nat : Option Json → Option ℕ
as_nat (some (num n)) = some n
as_nat _ = none

-- Truthiness of a field.
abbrev pub is_true : Option Json → Bool
is_true none = false
is_true (some null) = false
is_true (some (bool b)) = b
is_true (some (num n)) = not (nat_beq n 0)
is_true (some (other_num n)) = true
is_true (some (str s)) = not (s == "")
is_true (some (arr xs)) = true
is_true (some (obj fs)) = true

unfoldable pub items_to_list : Items → List Json
items_to_list nil = []
items_to_list (item x xs) = x ∷ items_to_list xs
