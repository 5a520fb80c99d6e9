-- ===== src/Tests/Smt.antt =====
-- The theorems on the Merkle tree at work on a tree with two DIDs.
use did_btcr2_js.Prelude.{
  length, ◌++◌, inl, nat_eq, string_eq, true, ◌⊎◌, All, List, [], arith, none, refl, replicate,
  some, ◌∷◌, ◌≡◌,
}
use did_btcr2_js.Smt.Tree.{
  finalize, leaves_of, add_entry, add_loop, clear_computed, Tree, TreeEntry, add_entries, new_tree,
}
use did_btcr2_js.Smt.Proof.{SerializedSmtProof, deserialize_proof, serialize_proof, did_to_index}
use did_btcr2_js.Smt.Hash.{
  IsBytes, big_int_to_hash, duplicate_did_index, Bytes, IsHash, block_hash, fold_bytes,
  hash_to_big_int, is_valid_hash,
}
use mathlib.Core.List.{flatten}
use did_btcr2_js.Smt.Tree.Invariant.{IsCleared, IsFiled, add_entries-IsFiled, new_tree-IsFiled}
use did_btcr2_js.Tests.Toy.{toy_laws, toy}
use did_btcr2_js.Prelude.Utf8.{encode_utf8}
use did_btcr2_js.Prelude.Result.{err, ok}
use did_btcr2_js.Smt.ZeroHash.Binding.{
  AllHashes, CollisionIn, climb_inputs, verify_zero_hash-binding,
}
use did_btcr2_js.Smt.ZeroHash.{
  tree_depth, ZeroHashEntry, ZeroHashProof, generate_zero_hash_proof, verify_zero_hash,
  zero_hash_root,
}
use did_btcr2_js.Prelude.Dict.{get, set}
use did_btcr2_js.Smt.ZeroHash.Completeness.{IsKeyed, generate-IsHash, verify_zero_hash-generate}
use did_btcr2_js.Smt.Tree.Proofs.{IsProved, proof-finalize}
use did_btcr2_js.Smt.Proof.Roundtrip.{contents, deserialize-serialize}
use did_btcr2_js.Smt.Tree.Stale.{IsStale, add_entries-IsStale}
use did_btcr2_js.Smt.Hash.Roundtrip.{
  big_int_to_hash-hash_to_big_int, hash_to_big_int-big_int_to_hash,
}

abbrev nonce : Bytes
nonce = replicate 32 7

abbrev with_update : TreeEntry
with_update = record { did = "did:a"; nonce = nonce; signed_update = some (1 ∷ 2 ∷ []) }

abbrev without_update : TreeEntry
without_update = record { did = "did:b"; nonce = nonce; signed_update = none }

abbrev entries : List TreeEntry
entries = with_update ∷ without_update ∷ []

nonce-IsHash : IsHash nonce
nonce-IsHash = (omega arith, refl)

nonces : All (λ e. IsHash e.nonce) entries
nonces = (nonce-IsHash, (nonce-IsHash, tt))

abbrev two_dids : Tree
two_dids = (add_entries toy new_tree entries).0

two_dids-IsFiled : IsFiled toy two_dids
two_dids-IsFiled = (add_entries-IsFiled toy new_tree entries nonces (new_tree-IsFiled toy).0).0

index_of_test : did_to_index toy "did:a" ≡ ok 204
unfolding did_to_index hash_to_big_int fold_bytes block_hash encode_utf8 is_valid_hash flatten
index_of_test = refl

index_of_other_test : did_to_index toy "did:b" ≡ ok 205
unfolding did_to_index hash_to_big_int fold_bytes block_hash encode_utf8 is_valid_hash flatten
index_of_other_test = refl

filed_test : get "did:a" two_dids.index_by_did ≡ some 204
unfolding did_to_index hash_to_big_int fold_bytes block_hash encode_utf8 is_valid_hash flatten
    add_entries add_loop add_entry clear_computed new_tree get set
filed_test = refl

proof-finalize_example : IsProved toy two_dids "did:a" 204
proof-finalize_example =
    proof-finalize toy toy_laws two_dids "did:a" 204 two_dids-IsFiled filed_test

add_entries-IsFiled_example :
    IsFiled toy (add_entries toy new_tree entries).0
    × ((add_entries toy new_tree entries).1 ≡ ok tt
        → IsCleared toy (add_entries toy new_tree entries).0)
add_entries-IsFiled_example =
    add_entries-IsFiled toy new_tree entries nonces (new_tree-IsFiled toy).0

abbrev first_leaf : ZeroHashEntry
first_leaf = record { index = 5; leaf = replicate 32 1 }

abbrev two_leaves : List ZeroHashEntry
two_leaves = first_leaf ∷ record { index = 6; leaf = replicate 32 2 } ∷ []

first_leaf-IsKeyed : IsKeyed two_leaves first_leaf
first_leaf-IsKeyed = record {
  listed = inl refl;
  in_range = (omega arith, (omega arith, tt));
  only = (λ _. refl, (λ h. absurd (ground (arith, h)), tt));
}

abbrev first_proof : ZeroHashProof
first_proof = generate_zero_hash_proof toy two_leaves 5

verify_zero_hash-generate_example :
    verify_zero_hash toy first_proof.collapsed first_proof.hashes 5
      (replicate 32 1)
      (zero_hash_root toy two_leaves)
    ≡ true
verify_zero_hash-generate_example =
    verify_zero_hash-generate toy toy_laws two_leaves first_leaf first_leaf-IsKeyed

leaves-IsHash : All (λ x. IsHash x.leaf) two_leaves
leaves-IsHash = ((omega arith, refl), ((omega arith, refl), tt))

sizes : (hs : List Bytes) → All IsHash hs → AllHashes hs
sizes [] a = tt
sizes (h ∷ hs) a = (a.0.1, sizes hs a.1)

abbrev ones : Bytes
ones = replicate 32 1

verify_zero_hash-binding_example :
    (ones ≡ ones)
    ⊎ CollisionIn toy
        (climb_inputs toy tree_depth first_proof.collapsed 5 ones first_proof.hashes)
        (climb_inputs toy tree_depth first_proof.collapsed 5 ones first_proof.hashes)
verify_zero_hash-binding_example =
    verify_zero_hash-binding toy toy_laws 5 (zero_hash_root toy two_leaves) first_proof.collapsed
      first_proof.collapsed first_proof.hashes first_proof.hashes ones ones refl refl
      (sizes first_proof.hashes (generate-IsHash toy toy_laws two_leaves 5 leaves-IsHash).2)
      (sizes first_proof.hashes (generate-IsHash toy toy_laws two_leaves 5 leaves-IsHash).2)
      verify_zero_hash-generate_example verify_zero_hash-generate_example

abbrev two_roots : Bytes
two_roots = zero_hash_root toy two_leaves

deserialize-serialize_example :
    (s : SerializedSmtProof Bytes) × (serialize_proof toy two_roots first_proof (some ones) none
      ≡ ok s)
    × (deserialize_proof toy s ≡ ok (contents two_roots first_proof (some ones) none))
deserialize-serialize_example =
    deserialize-serialize toy toy_laws two_roots first_proof (some ones) none
      (generate-IsHash toy toy_laws two_leaves 5 leaves-IsHash).0
      (generate-IsHash toy toy_laws two_leaves 5 leaves-IsHash).1
      (generate-IsHash toy toy_laws two_leaves 5 leaves-IsHash).2 (omega arith, refl) tt

hash_to_big_int-big_int_to_hash_example :
    (hash : Bytes) × (big_int_to_hash 258 ≡ ok hash)
    × (hash_to_big_int hash ≡ ok 258)
    × IsBytes hash
    × (length hash ≡ 32)
hash_to_big_int-big_int_to_hash_example = hash_to_big_int-big_int_to_hash 258 (omega arith)

abbrev small_hash : Bytes
small_hash = replicate 30 0 ++ 1 ∷ 2 ∷ []

small_hash_test : hash_to_big_int small_hash ≡ ok 258
unfolding hash_to_big_int fold_bytes is_valid_hash
small_hash_test = refl

big_int_to_hash-hash_to_big_int_example : big_int_to_hash 258 ≡ ok small_hash
big_int_to_hash-hash_to_big_int_example =
    big_int_to_hash-hash_to_big_int small_hash 258 (omega arith) small_hash_test

abbrev newcomer : TreeEntry
newcomer = record { did = "did:c"; nonce = nonce; signed_update = none }

newcomer_test : did_to_index toy "did:c" ≡ ok 206
unfolding did_to_index hash_to_big_int fold_bytes block_hash encode_utf8 is_valid_hash flatten
newcomer_test = refl

free_test : get 206 (finalize toy two_dids).entries ≡ none
unfolding did_to_index hash_to_big_int fold_bytes block_hash encode_utf8 is_valid_hash flatten
    add_entries add_loop add_entry clear_computed new_tree get set finalize
free_test = refl

taken_test : get 204 (finalize toy two_dids).entries ≡ some with_update
unfolding did_to_index hash_to_big_int fold_bytes block_hash encode_utf8 is_valid_hash flatten
    add_entries add_loop add_entry clear_computed new_tree get set finalize
taken_test = refl

computed_test :
    (finalize toy two_dids).leaves ≡ some (leaves_of toy (finalize toy two_dids).entries)
unfolding finalize
computed_test = refl

add_entries-IsStale_example :
    ((add_entries toy (finalize toy two_dids) (newcomer ∷ with_update ∷ [])).1
      ≡ err duplicate_did_index)
    × IsStale toy
        (finalize toy two_dids)
        (add_entries toy (finalize toy two_dids) (newcomer ∷ with_update ∷ [])).0
        "did:c"
        206
add_entries-IsStale_example =
    add_entries-IsStale toy (finalize toy two_dids) newcomer with_update with_update 206 204
      computed_test newcomer_test free_test index_of_test taken_test
