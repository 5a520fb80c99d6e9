-- ===== src/Tests/ToyEnv.antt =====
-- Concrete functions for the resolver: a JSON value hashes to its size, and a text decodes to its
-- length, so a text with n letters is the hash of a value of size n.
use did_btcr2_js.Smt.Hash.{Crypto}
use did_btcr2_js.Tests.Toy.{bytes_equal, sum_hash}
use did_btcr2_js.Resolver.Types.{Env}
use did_btcr2_js.Common.Json.{
  Fields, Items, Json, arr, bool, end, field, item, nil, null, num, obj, other_num, str,
}
use did_btcr2_js.Prelude.{[], some, true, ℕ, ◌*◌, ◌+◌, ◌∷◌}
use mathlib.Core.List.{flatten}
use Prim.Native.String.{String}

unfoldable mutual
  pub size : Json → ℕ
  size null = 1
  size (bool b) = 1
  size (num n) = 1
  size (other_num n) = 1
  size (str s) = 1
  size (arr xs) = 1 + items_size xs
  size (obj fs) = 1 + fields_size fs

  pub items_size : Items → ℕ
  items_size nil = 0
  items_size (item x xs) = size x + items_size xs

  pub fields_size : Fields → ℕ
  fields_size end = 0
  fields_size (field k v fs) = size v + fields_size fs

abbrev chars : String → ℕ
chars String.[] = 0
chars (String.◌∷◌ c s) = 1 + chars s

abbrev crypto : Crypto String
crypto = record {
  sha256 = sum_hash;
  concat_bytes = flatten;
  equal_bytes = bytes_equal;
  base64url_encode = λ b. "";
  base64url_decode = λ t. some (chars t ∷ []);
}

-- A patch adds one field to an object.
abbrev pub patched : Json → Json
patched (obj fs) = obj (field "added" null fs)
patched v = v

abbrev pub toy_env : Env
toy_env = record {
  crypto = crypto;
  hash_json = λ j. size j ∷ [];
  encode_hex = λ b. elim b as (λ _. String) [ [] ↦ "" | x ∷ xs ↦ "h" ];
  apply_patch = λ document patch. some (patched document);
  verify_proof = λ method update. some true;
  valid_document = λ document. true;
  did_method = λ did. some "btcr2";
  decode_uri_component = λ s. some s;
  parse_date = λ s. some (1000 * chars s);
  parse_number = λ s. some (chars s);
  iso_text = λ ms. "time";
  replace_all = λ text from to. text;
  new_document = λ document. some document;
}
