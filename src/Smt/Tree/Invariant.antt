-- ===== src/Smt/Tree/Invariant.antt =====
-- The two maps of `BTCR2MerkleTree` and what is computed from them.
use did_btcr2_js.Smt.Tree.{
  TreeEntry, add_entries, add_entry, add_loop, clear_computed, finalize, leaves_of, new_tree, reset,
  Tree,
}
use did_btcr2_js.Prelude.{
  All, Bool-cases, List, [], arith, inl, inr, nat_eq, none, refl, some, string_eq, ℕ, ◌==◌, ◌∷◌,
  ◌≡◌, ◌⊎◌,
}
use did_btcr2_js.Prelude.Result.{>>=-eq-ok, Result, Result-cases, err, ok}
use Prim.Native.String.{String}
use did_btcr2_js.Prelude.Dict.{All-set, Distinct, Distinct-set, get, get-set, set}
use did_btcr2_js.Smt.Hash.{Crypto, Error, IsHash}
use text.Mathlib.TextEquality.{eq_iff}
use did_btcr2_js.Smt.Proof.{did_to_index}
use did_btcr2_js.Smt.ZeroHash.{zero_hash_root}

abbrev pub IsComputed : {Text : Type 0} → Crypto Text → Tree → Type 0
IsComputed c t =
    ((t.leaves ≡ none) × (t.root ≡ none))
    ⊎ ((t.leaves ≡ some (leaves_of c t.entries))
        × (t.root ≡ some (zero_hash_root c (leaves_of c t.entries))))

-- Each entry stands at the index of its DID, no index stands twice, nonces have 32 bytes, and the
-- DIDs of `index_by_did` lead to their entries.
pub record IsFiled {Text : Type 0} (c : Crypto Text) (t : Tree) : Type 0 where
  pub keyed : All (λ p. (did_to_index c p.1.did ≡ ok p.0) × IsHash p.1.nonce) t.entries
  pub distinct : Distinct t.entries
  pub named :
      (d : String) (i : ℕ)
      → get d t.index_by_did ≡ some i
      → (e : TreeEntry) × (get i t.entries ≡ some e) × (e.did ≡ d)

module _ {Text : Type 0} (c : Crypto Text) where
  pub new_tree-IsFiled : IsFiled c new_tree × IsComputed c new_tree
  unfolding new_tree get
  new_tree-IsFiled = (record { keyed = tt; distinct = tt; named = λ d i g. cc }, inl (refl, refl))

  abbrev pub filed : Tree → TreeEntry → ℕ → Tree
  filed t entry index = record t {
    entries = set index entry t.entries;
    index_by_did = set entry.did index t.index_by_did;
  }

  pub add_entry-inv :
      (t t' : Tree) (entry : TreeEntry)
      → add_entry c t entry ≡ ok t'
      → (i : ℕ) × (did_to_index c entry.did ≡ ok i)
        × (get i t.entries ≡ none)
        × (t' ≡ filed t entry i)
  unfolding add_entry
  add_entry-inv t t' entry h =
      let (i, e, k) = >>=-eq-ok (did_to_index c entry.did) _ h in (i, e, ground arith, ground arith)

  filed-named :
      (t : Tree) (entry : TreeEntry) (i : ℕ)
      → IsFiled c t
      → get i t.entries ≡ none
      → (d : String) (j : ℕ) → get d (filed t entry i).index_by_did ≡ some j
      → (e : TreeEntry) × (get j (filed t entry i).entries ≡ some e) × (e.did ≡ d)
  filed-named t entry i f free d j g = elim (Bool-cases (entry.did == d)) [
    | inl same ↦ (
      entry,
      ground (arith, get-set entry.did d i t.index_by_did, get-set i j entry t.entries),
      (eq_iff entry.did d).0 same,
    )
    | inr other ↦
        let (e, there, named) =
          f.named d j (ground (arith, get-set entry.did d i t.index_by_did)) in
        (e, ground (arith, get-set i j entry t.entries), named)
  ]

  pub add_entry-IsFiled :
      (t t' : Tree) (entry : TreeEntry)
      → IsHash entry.nonce
      → IsFiled c t
      → add_entry c t entry ≡ ok t'
      → IsFiled c t'
  add_entry-IsFiled t t' entry n f h =
      let (i, e, free, same) = add_entry-inv t t' entry h in
      rw same (record {
        keyed = All-set _ i entry t.entries f.keyed (e, n);
        distinct = Distinct-set i entry t.entries f.distinct;
        named = filed-named t entry i f free;
      })

  add_loop-IsFiled :
      (entries : List TreeEntry) (t : Tree)
      → All (λ e. IsHash e.nonce) entries
      → IsFiled c t
      → IsFiled c (add_loop c t entries).0
  unfolding add_loop
  add_loop-IsFiled [] t n f = f
  add_loop-IsFiled (entry ∷ rest) t n f = elim (Result-cases (add_entry c t entry)) [
    | inl (t', h) ↦
        rw (h, add_loop) (add_loop-IsFiled rest t' n.1 (add_entry-IsFiled t t' entry n.0 f h))
    | inr (e, h) ↦ rw (h, add_loop) f
  ]

  clear_computed-IsFiled :
      (r : Tree × Result Error (Unit {0})) → IsFiled c r.0 → IsFiled c (clear_computed c r).0
  unfolding clear_computed
  clear_computed-IsFiled (t, ok u) f = record {
    keyed = f.keyed;
    distinct = f.distinct;
    named = f.named;
  }
  clear_computed-IsFiled (t, err e) f = f

  -- Neither leaves nor a root are kept.
  abbrev pub IsCleared : Tree → Type 0
  IsCleared t = (t.leaves ≡ none) × (t.root ≡ none)

  clear_computed-IsCleared :
      (r : Tree × Result Error (Unit {0}))
      → (clear_computed c r).1 ≡ ok tt
      → IsCleared (clear_computed c r).0
  unfolding clear_computed
  clear_computed-IsCleared (t, ok u) h = (refl, refl)
  clear_computed-IsCleared (t, err e) h = cc

  -- `addEntries` keeps the maps in agreement, also when it throws half-way; when it returns, neither
  -- computed leaves nor a computed root are left.
  pub add_entries-IsFiled :
      (t : Tree) (entries : List TreeEntry)
      → All (λ e. IsHash e.nonce) entries
      → IsFiled c t
      → IsFiled c (add_entries c t entries).0
        × ((add_entries c t entries).1 ≡ ok tt → IsCleared (add_entries c t entries).0)
  unfolding add_entries
  add_entries-IsFiled t entries n f = (
    clear_computed-IsFiled (add_loop c t entries) (add_loop-IsFiled entries t n f),
    clear_computed-IsCleared (add_loop c t entries),
  )

  pub finalize-IsFiled :
      (t : Tree) → IsFiled c t → IsFiled c (finalize c t) × IsComputed c (finalize c t)
  unfolding finalize
  finalize-IsFiled t f =
      (record { keyed = f.keyed; distinct = f.distinct; named = f.named }, inr (refl, refl))

  pub reset-IsFiled : (t : Tree) → IsFiled c t → IsFiled c (reset t) × IsComputed c (reset t)
  unfolding reset
  reset-IsFiled t f =
      (record { keyed = f.keyed; distinct = f.distinct; named = f.named }, inl (refl, refl))
