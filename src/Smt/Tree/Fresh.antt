-- ===== src/Smt/Tree/Fresh.antt =====
-- When `addEntries` of packages/smt/src/btcr2-tree.ts returns.
use did_btcr2_js.Prelude.{
  All, Bool-cases, List, [], ap, inl, inr, map, nat_beq, nat_beq_iff, nat_eq, none, refl, string_eq,
  sym, ℕ, ◌∙◌, ◌∷◌, ◌≡◌, ◌≢◌,
}
use did_btcr2_js.Smt.Tree.Invariant.{filed}
use did_btcr2_js.Smt.Hash.Roundtrip.{block_hash-IsHash, hash_to_big_int_valid}
use did_btcr2_js.Smt.Tree.{
  Tree, TreeEntry, add_entries, add_entry, add_loop, clear_computed, new_tree,
}
use did_btcr2_js.Prelude.Dict.{get, get-set}
use did_btcr2_js.Prelude.Result.{Result, err, ok}
use did_btcr2_js.Smt.Hash.{CryptoLaws, Crypto, Error, block_hash, fold_bytes}
use Prim.Native.String.{String}
use did_btcr2_js.Smt.Proof.{did_to_index}
use did_btcr2_js.Prelude.Utf8.{encode_utf8}

module _ {Text : Type 0} (c : Crypto Text) where
  -- No two of the DIDs have one index.
  abbrev pub DistinctIndexes : List String → Type 0
  DistinctIndexes [] = Unit
  DistinctIndexes (d ∷ ds) = All (λ e. did_to_index c d ≢ did_to_index c e) ds × DistinctIndexes ds

  abbrev IsFree : Tree → TreeEntry → Type 0
  IsFree t entry = (i : ℕ) × (did_to_index c entry.did ≡ ok i) × (get i t.entries ≡ none)

  add_entry-free :
      (t : Tree) (entry : TreeEntry) (i : ℕ)
      → did_to_index c entry.did ≡ ok i
      → get i t.entries ≡ none
      → add_entry c t entry ≡ ok (filed c t entry i)
  unfolding add_entry
  add_entry-free t entry i e free = rw (e, free) refl

  filed-IsFree :
      (t : Tree) (entry later : TreeEntry) (i : ℕ)
      → did_to_index c entry.did ≡ ok i
      → did_to_index c entry.did ≢ did_to_index c later.did
      → IsFree t later
      → IsFree (filed c t entry i) later
  filed-IsFree t entry later i e differ (j, f, free) = (
    j,
    f,
    get-set i j entry t.entries ∙ elim (Bool-cases (nat_beq i j)) [
      | inl same ↦ absurd (differ (e ∙ ap ok ((nat_beq_iff i j).0 same) ∙ sym f))
      | inr other ↦ rw other free
    ],
  )

  abbrev entry_dids : List TreeEntry → List String
  entry_dids entries = map (λ entry. entry.did) entries

  filed-All :
      (t : Tree) (entry : TreeEntry) (i : ℕ)
      → did_to_index c entry.did ≡ ok i
      → (rest : List TreeEntry)
      → All (λ d. did_to_index c entry.did ≢ did_to_index c d) (entry_dids rest)
      → All (IsFree t) rest
      → All (IsFree (filed c t entry i)) rest
  filed-All t entry i e [] d f = tt
  filed-All t entry i e (later ∷ rest) d f =
      (filed-IsFree t entry later i e d.0 f.0, filed-All t entry i e rest d.1 f.1)

  add_loop-ok :
      (entries : List TreeEntry) (t : Tree)
      → All (IsFree t) entries
      → DistinctIndexes (entry_dids entries)
      → (add_loop c t entries).1 ≡ ok tt
  unfolding add_loop
  add_loop-ok [] t f d = refl
  add_loop-ok (entry ∷ rest) t ((i, e, free), fs) (d, ds) =
      let added = add_entry-free t entry i e free in
      rw (added, add_loop)
        (add_loop-ok rest (filed c t entry i) (filed-All t entry i e rest d fs) ds)

  clear_computed-ok :
      (r : Tree × Result Error (Unit {0})) → r.1 ≡ ok tt → (clear_computed c r).1 ≡ ok tt
  unfolding clear_computed
  clear_computed-ok (t, ok u) e = refl
  clear_computed-ok (t, err x) e = cc

  all-IsFree : CryptoLaws c → (entries : List TreeEntry) → All (IsFree new_tree) entries
  unfolding did_to_index new_tree get
  all-IsFree laws [] = tt
  all-IsFree laws (entry ∷ rest) = (
    (
      fold_bytes 0 (block_hash c (encode_utf8 entry.did ∷ [])),
      hash_to_big_int_valid _ (block_hash-IsHash c laws _).1,
      refl,
    ),
    all-IsFree laws rest,
  )

  -- A new tree takes entries of which no two have one index.
  pub add_entries-ok :
      CryptoLaws c
      → (entries : List TreeEntry) → DistinctIndexes (entry_dids entries)
      → (add_entries c new_tree entries).1 ≡ ok tt
  unfolding add_entries
  add_entries-ok laws entries d =
      clear_computed-ok (add_loop c new_tree entries)
        (add_loop-ok entries new_tree (all-IsFree laws entries) d)
