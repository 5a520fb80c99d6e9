-- ===== src/Smt/Tree/Added.antt =====
-- Which entries `addEntries` of packages/smt/src/btcr2-tree.ts has filed.
use did_btcr2_js.Prelude.{
  ap, subst, All, List, [], arith, inl, inr, nat_eq, refl, string_eq, sym, true, ℕ, ◌∙◌, ◌∷◌, ◌≡◌,
}
use did_btcr2_js.Prelude.Result.{Result, Result-cases, err, ok}
use did_btcr2_js.Prelude.Dict.{All-set, get-set, has}
use Prim.Native.String.{String}
use did_btcr2_js.Smt.Tree.Invariant.{add_entry-inv, filed}
use did_btcr2_js.Smt.Tree.{Tree, TreeEntry, add_entries, add_entry, add_loop, clear_computed}
use did_btcr2_js.Smt.Hash.{Crypto, Error}
use text.Mathlib.TextPositions.{eq_refl}

module _ {Text : Type 0} (c : Crypto Text) where
  abbrev pub IsIndexed : Tree → String → Type 0
  IsIndexed t did = has did t.index_by_did ≡ true

  filed-IsIndexed :
      (t : Tree) (entry : TreeEntry) (i : ℕ) (did : String)
      → IsIndexed t did
      → IsIndexed (filed c t entry i) did
  filed-IsIndexed t entry i did h = ground (arith, h, get-set entry.did did i t.index_by_did)

  filed-IsIndexed_own :
      (t : Tree) (entry : TreeEntry) (i : ℕ) → IsIndexed (filed c t entry i) entry.did
  filed-IsIndexed_own t entry i =
      ground (arith, get-set entry.did entry.did i t.index_by_did, eq_refl entry.did)

  -- An index that is there stays there.
  add_loop-IsIndexed :
      (entries : List TreeEntry) (t : Tree) (did : String)
      → IsIndexed t did
      → IsIndexed (add_loop c t entries).0 did
  unfolding add_loop
  add_loop-IsIndexed [] t did h = h
  add_loop-IsIndexed (entry ∷ rest) t did h = elim (Result-cases (add_entry c t entry)) [
    | inl (t', e) ↦
        let (i, k, free, same) = add_entry-inv c t t' entry e in
        rw (e, add_loop)
          (add_loop-IsIndexed rest t' did (rw same (filed-IsIndexed t entry i did h)))
    | inr (x, e) ↦ rw (e, add_loop) h
  ]

  add_loop_next :
      (t t' : Tree) (entry : TreeEntry) (rest : List TreeEntry)
      → add_entry c t entry ≡ ok t'
      → add_loop c t (entry ∷ rest) ≡ add_loop c t' rest
  unfolding add_loop
  add_loop_next t t' entry rest e = rw (e, add_loop)

  add_loop-added :
      (entries : List TreeEntry) (t : Tree)
      → (add_loop c t entries).1 ≡ ok tt
      → All (λ entry. IsIndexed (add_loop c t entries).0 entry.did) entries
  unfolding add_loop
  add_loop-added [] t h = tt
  add_loop-added (entry ∷ rest) t h = elim (Result-cases (add_entry c t entry)) [
    | inl (t', e) ↦
        let (i, k, free, same) = add_entry-inv c t t' entry e in
        let next = add_loop_next t t' entry rest e in
        subst
          (λ (r : Tree × Result Error (Unit {0})). All (λ x. IsIndexed r.0 x.did) (entry ∷ rest))
          (sym next)
          (
            add_loop-IsIndexed rest t' entry.did (rw same (filed-IsIndexed_own t entry i)),
            add_loop-added rest t' (sym (ap (λ r. r.1) next) ∙ h),
          )
    | inr (x, e) ↦ absurd (ground (arith, rw (e, add_loop) at h))
  ]

  add_loop-All :
      (P : TreeEntry → Type 0) (entries : List TreeEntry) (t : Tree)
      → All P entries
      → All (λ x. P x.1) t.entries
      → All (λ x. P x.1) (add_loop c t entries).0.entries
  unfolding add_loop
  add_loop-All P [] t a h = h
  add_loop-All P (entry ∷ rest) t a h = elim (Result-cases (add_entry c t entry)) [
    | inl (t', e) ↦
        let (i, k, free, same) = add_entry-inv c t t' entry e in
        rw (e, add_loop)
          (add_loop-All P rest t' a.1
            (rw same (All-set (λ (x : ℕ × TreeEntry). P x.1) i entry t.entries h a.0)))
    | inr (x, e) ↦ rw (e, add_loop) h
  ]

  clear_computed-maps :
      (r : Tree × Result Error (Unit {0}))
      → ((clear_computed c r).0.entries ≡ r.0.entries)
        × ((clear_computed c r).0.index_by_did ≡ r.0.index_by_did)
        × ((clear_computed c r).1 ≡ r.1)
  unfolding clear_computed
  clear_computed-maps (t, ok u) = (refl, refl, refl)
  clear_computed-maps (t, err e) = (refl, refl, refl)

  -- When `addEntries` returns, each of the entries is known by its DID.
  pub add_entries-IsIndexed :
      (t : Tree) (entries : List TreeEntry)
      → (add_entries c t entries).1 ≡ ok tt
      → All (λ entry. IsIndexed (add_entries c t entries).0 entry.did) entries
  unfolding add_entries
  add_entries-IsIndexed t entries h =
      let (_, dids, outcome) = clear_computed-maps (add_loop c t entries) in
      rw dids (add_loop-added entries t (sym outcome ∙ h))

  -- What holds of all entries, old and new, holds of all that are filed.
  pub add_entries-All :
      (P : TreeEntry → Type 0) (t : Tree) (entries : List TreeEntry)
      → All P entries
      → All (λ x. P x.1) t.entries
      → All (λ x. P x.1) (add_entries c t entries).0.entries
  unfolding add_entries
  add_entries-All P t entries a h =
      let (filed_entries, _, _) = clear_computed-maps (add_loop c t entries) in
      rw filed_entries (add_loop-All P entries t a h)
