-- ===== src/Smt/Tree.antt =====
-- packages/smt/src/btcr2-tree.ts: `BTCR2MerkleTree`. A method that can throw after it has changed
-- the object gives the object that it leaves behind together with its outcome.
pub mod Added
pub mod Fresh
pub mod Invariant
pub mod Proofs
pub mod Stale
use Prim.Native.String.{String}
use did_btcr2_js.Prelude.{
  ℕ, ◌≡◌, Bool, true, false, Option, none, some, List, [], ◌∷◌, map, if◌then◌else◌, nat_eq,
  string_eq,
}
use did_btcr2_js.Prelude.Dict.{Dict, get, has, set}
use did_btcr2_js.Prelude.Result.{◌>>◌, Result, ok, err, or_throw, ◌>>=◌}
use did_btcr2_js.Smt.Hash.{
  Bytes, Error, duplicate_did_index, did_not_in_tree, tree_not_finalized, type_error, Crypto,
  block_hash,
}
use did_btcr2_js.Smt.ZeroHash.{ZeroHashEntry, zero_hash_root, generate_zero_hash_proof}
use did_btcr2_js.Smt.Proof.{
  SerializedSmtProof, did_to_index, inclusion_leaf_hash, non_inclusion_leaf_hash, serialize_proof,
}

pub record TreeEntry : Type 0 where
  pub did : String
  pub nonce : Bytes
  pub signed_update : Option Bytes

pub record Tree : Type 0 where
  pub entries : Dict ℕ TreeEntry
  pub index_by_did : Dict String ℕ
  pub leaves : Option (List ZeroHashEntry)
  pub root : Option Bytes

unfoldable pub new_tree : Tree
new_tree = record { entries = []; index_by_did = []; leaves = none; root = none }

module _ {Text : Type 0} (c : Crypto Text) where
  -- One turn of the loop of `addEntries`.
  unfoldable pub add_entry : Tree → TreeEntry → Result Error Tree
  add_entry t entry = do
    index ← did_to_index c entry.did
    if has index t.entries
        then err duplicate_did_index
        else ok (record t {
          entries = set index entry t.entries;
          index_by_did = set entry.did index t.index_by_did;
        })

  unfoldable pub add_loop : Tree → List TreeEntry → Tree × Result Error (Unit {0})
  add_loop t [] = (t, ok tt)
  add_loop t (entry ∷ rest) = elim (add_entry t entry) [
    | ok t' ↦ add_loop t' rest
    | err e ↦ (t, err e)
  ]

  -- `#leaves` and `#root` are cleared behind the loop, so a throw leaves them as they were.
  unfoldable pub clear_computed : Tree × Result Error (Unit {0}) → Tree × Result Error (Unit {0})
  clear_computed (t, ok u) = (record t { leaves = none; root = none }, ok u)
  clear_computed (t, err e) = (t, err e)

  unfoldable pub add_entries : Tree → List TreeEntry → Tree × Result Error (Unit {0})
  add_entries t entries = clear_computed (add_loop t entries)

  pub leaf_hash : TreeEntry → Bytes
  leaf_hash entry = elim entry.signed_update [
    | none ↦ non_inclusion_leaf_hash c entry.nonce
    | some signed_update ↦ inclusion_leaf_hash c entry.nonce signed_update
  ]

  pub leaves_of : Dict ℕ TreeEntry → List ZeroHashEntry
  leaves_of [] = []
  leaves_of ((index, entry) ∷ rest) =
      record { index = index; leaf = leaf_hash entry } ∷ leaves_of rest

  unfoldable pub finalize : Tree → Tree
  finalize t =
      let leaves = leaves_of t.entries in
      record t { leaves = some leaves; root = some (zero_hash_root c leaves) }

  pub update_id_of : TreeEntry → Option Bytes
  update_id_of entry = elim entry.signed_update [
    | none ↦ none
    | some signed_update ↦ some (block_hash c (signed_update ∷ []))
  ]

  pub proof : Tree → String → Result Error (SerializedSmtProof Text)
  proof t did = do
    index ← or_throw (get did t.index_by_did) did_not_in_tree
    leaves ← or_throw t.leaves tree_not_finalized
    root ← or_throw t.root tree_not_finalized
    entry ← or_throw (get index t.entries) type_error
    serialize_proof c root (generate_zero_hash_proof c leaves index) (some entry.nonce)
        (update_id_of entry)

unfoldable pub root_hash : Tree → Result Error Bytes
root_hash t = or_throw t.root tree_not_finalized

pub reset : Tree → Tree
reset t = record t { leaves = none; root = none }
