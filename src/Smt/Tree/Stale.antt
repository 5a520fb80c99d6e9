-- ===== src/Smt/Tree/Stale.antt =====
-- `addEntries` of packages/smt/src/btcr2-tree.ts when it throws half-way on a finalized tree.
use did_btcr2_js.Smt.Tree.{
  TreeEntry, add_entries, add_entry, add_loop, clear_computed, leaves_of, Tree,
}
use did_btcr2_js.Prelude.{
  List, ◌∙◌, [], ap, arith, length, nat_eq, none, refl, some, string_eq, suc, ℕ, ◌∷◌, ◌≡◌, ◌≢◌,
}
use did_btcr2_js.Prelude.Dict.{length-set, Dict, get, get-set, set}
use Prim.Native.String.{String}
use did_btcr2_js.Prelude.Result.{err, ok}
use did_btcr2_js.Smt.Proof.{did_to_index}
use did_btcr2_js.Smt.Hash.{Crypto, duplicate_did_index}
use text.Mathlib.TextPositions.{eq_refl}

abbrev filed : Tree → TreeEntry → ℕ → Tree
filed t entry index = record t {
  entries = set index entry t.entries;
  index_by_did = set entry.did index t.index_by_did;
}

module _ {Text : Type 0} (c : Crypto Text) where
  add_entry_new :
      (t : Tree) (e : TreeEntry) (i : ℕ)
      → did_to_index c e.did ≡ ok i
      → get i t.entries ≡ none
      → add_entry c t e ≡ ok (filed t e i)
  unfolding add_entry
  add_entry_new t e i k free = rw (k, free)

  add_entry_again :
      (t : Tree) (e w : TreeEntry) (i : ℕ)
      → did_to_index c e.did ≡ ok i
      → get i t.entries ≡ some w
      → add_entry c t e ≡ err duplicate_did_index
  unfolding add_entry
  add_entry_again t e w i k there = rw (k, there)

  length-leaves_of : (m : Dict ℕ TreeEntry) → length (leaves_of c m) ≡ length m
  unfolding leaves_of
  length-leaves_of [] = refl
  length-leaves_of (p ∷ m) = ap suc (length-leaves_of m)

  grown :
      (t : Tree) (e : TreeEntry) (i : ℕ)
      → get i t.entries ≡ none
      → leaves_of c t.entries ≢ leaves_of c (set i e t.entries)
  grown t e i free h = ground (
    arith,
    ap length h,
    length-leaves_of t.entries,
    length-leaves_of (set i e t.entries),
    length-set i e t.entries,
  )

  add_loop_ok :
      (t t' : Tree) (e : TreeEntry) (rest : List TreeEntry)
      → add_entry c t e ≡ ok t'
      → add_loop c t (e ∷ rest) ≡ add_loop c t' rest
  unfolding add_loop
  add_loop_ok t t' e rest h = rw (h, add_loop)

  add_loop_err :
      (t : Tree) (e : TreeEntry) (rest : List TreeEntry)
      → add_entry c t e ≡ err duplicate_did_index
      → add_loop c t (e ∷ rest) ≡ (t, err duplicate_did_index)
  unfolding add_loop
  add_loop_err t e rest h = rw (h, add_loop)

  add_entries_half_way :
      (t : Tree) (e d w : TreeEntry) (i j : ℕ)
      → did_to_index c e.did ≡ ok i
      → get i t.entries ≡ none
      → did_to_index c d.did ≡ ok j
      → get j t.entries ≡ some w
      → add_entries c t (e ∷ d ∷ []) ≡ (filed t e i, err duplicate_did_index)
  unfolding add_entries clear_computed
  add_entries_half_way t e d w i j k free k' taken =
      let still : get j (filed t e i).entries ≡ some w = ground (arith, get-set i j e t.entries) in
      ap (clear_computed c) (
        add_loop_ok t (filed t e i) e (d ∷ []) (add_entry_new t e i k free)
        ∙ add_loop_err (filed t e i) d [] (add_entry_again (filed t e i) d w j k' still))

-- What a failed `addEntries` leaves behind.
pub record IsStale {Text : Type 0} (c : Crypto Text) (t u : Tree) (did : String) (i : ℕ)
    : Type 0 where
  pub known : get did u.index_by_did ≡ some i
  pub same_leaves : u.leaves ≡ t.leaves
  pub same_root : u.root ≡ t.root
  pub missing : u.leaves ≢ some (leaves_of c u.entries)

-- On a finalized tree, adding a new DID and then one whose index is taken throws, but the new DID is
-- known from then on while leaves and root are those of the tree without it: they are not the leaves
-- of the entries any more.
pub add_entries-IsStale :
    {Text : Type 0} (c : Crypto Text) (t : Tree) (e d w : TreeEntry) (i j : ℕ)
    → t.leaves ≡ some (leaves_of c t.entries)
    → did_to_index c e.did ≡ ok i
    → get i t.entries ≡ none
    → did_to_index c d.did ≡ ok j
    → get j t.entries ≡ some w
    → ((add_entries c t (e ∷ d ∷ [])).1 ≡ err duplicate_did_index)
      × IsStale c t (add_entries c t (e ∷ d ∷ [])).0 e.did i
add_entries-IsStale c t e d w i j computed k free k' taken =
    rw (add_entries_half_way c t e d w i j k free k' taken) (
      refl,
      record {
        known = simp (get-set, eq_refl);
        same_leaves = refl;
        same_root = refl;
        missing = λ h. grown c t e i free (ground arith);
      },
    )
