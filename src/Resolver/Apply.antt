-- ===== src/Resolver/Apply.antt =====
-- `Resolver.confirmDuplicate` and `Resolver.applyUpdate` of packages/method/src/core/resolver.ts, with
-- `JSONPatch.apply` of packages/common/src/json-patch.ts.
use did_btcr2_js.Common.Json.{
  as_fields, as_items, as_text, delete_keys, get_field, items_to_list, omit, Json,
}
use did_btcr2_js.Prelude.{
  Bool, List, Option, [], all, from_option, get_elem?, if◌then◌else◌, is_some, leb, nat_eq, none,
  not, some, string_eq, ◌&&◌, ◌-◌, ◌==◌, ◌||◌, ◌∷◌,
}
use Prim.Native.String.{String}
use did_btcr2_js.Prelude.Result.{Result, guard, ok, or_throw, ◌>>=◌, ◌>>◌}
use did_btcr2_js.Resolver.Types.{
  Env, Proof, ResolveError, SignedUpdate, invalid_did, invalid_did_document, invalid_did_update,
  invalid_hash_text, json_patch_apply, late_publishing,
}
use did_btcr2_js.Resolver.Documents.{dereference_zcap_id, get_signing_method}
use did_btcr2_js.Smt.Hash.{Bytes}

-- `const { proof: _, ...unsignedUpdate } = update`
abbrev pub unsigned_shallow : SignedUpdate → Json
unsigned_shallow u = omit "proof" u.json

-- `JSONUtils.deleteKeys(update, ['proof'])`
abbrev pub unsigned_deep : SignedUpdate → Json
unsigned_deep u = delete_keys ("proof" ∷ []) u.json

module _ (env : Env) where
  unfoldable pub confirm_duplicate : SignedUpdate → List Bytes → Result ResolveError (Unit {0})
  confirm_duplicate u history = do
    guard (leb 2 u.target_version_id) invalid_did_update
    historical ← or_throw (get_elem? history (u.target_version_id - 2)) late_publishing
    guard (env.crypto.equal_bytes historical (env.hash_json (unsigned_shallow u))) late_publishing

  -- `validateOperations`, for one operation and for all.
  unfoldable pub valid_operation : Json → Bool
  valid_operation op =
      is_some (as_fields (some op))
      && is_some (as_text (get_field "op" op))
      && is_some (as_text (get_field "path" op))
      && (not (is_move (from_option "" (as_text (get_field "op" op))))
          || is_some (as_text (get_field "from" op)))
    where
      is_move : String → Bool
      is_move code = code == "move" || code == "copy"

  unfoldable pub json_patch_apply_document : Json → Json → Result ResolveError Json
  unfolding valid_operation
  json_patch_apply_document document operations = do
    ops ← or_throw (as_items (some operations)) json_patch_apply
    guard (all valid_operation (items_to_list ops)) json_patch_apply
    or_throw (env.apply_patch document operations) json_patch_apply

  unfoldable pub decode_hash : String → Result ResolveError Bytes
  decode_hash text = or_throw (env.crypto.base64url_decode text) invalid_hash_text

  abbrev nonempty : Option String → Option String
  nonempty none = none
  nonempty (some s) = if s == "" then none else some s

  abbrev proof_text : (Proof → Option String) → Option Proof → Option String
  proof_text part none = none
  proof_text part (some p) = nonempty (part p)

  unfoldable pub apply_update : Json → SignedUpdate → Result ResolveError Json
  apply_update document u = do
    capability_id ← or_throw (proof_text (λ p. p.capability) u.proof) invalid_did_update
    target ← or_throw (dereference_zcap_id env capability_id) invalid_did
    guard (target == from_option "" (as_text (get_field "id" document))) invalid_did_update
    method_id ← or_throw (proof_text (λ p. p.verification_method) u.proof) invalid_did_update
    vm ← get_signing_method env document (some method_id)
    verified ← or_throw (env.verify_proof vm u.json) invalid_did_update
    guard verified invalid_did_update
    updated ← json_patch_apply_document document u.patch
    guard (env.valid_document updated) invalid_did_document
    target_hash ← decode_hash u.target_hash
    guard (env.crypto.equal_bytes target_hash (env.hash_json updated)) invalid_did_update
    ok updated
