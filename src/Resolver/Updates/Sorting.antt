-- ===== src/Resolver/Updates/Sorting.antt =====
-- What sorting the updates keeps.
use did_btcr2_js.Prelude.{All, Bool-cases, List, [], inl, inr, ◌∷◌}
use did_btcr2_js.Resolver.Updates.{Announced, insert_sorted, sort_updates, sorts_before}

insert_sorted-All :
    (Known : Announced → Type 0) (a : Announced) (xs : List Announced)
    → Known a
    → All Known xs
    → All Known (insert_sorted a xs)
unfolding insert_sorted
insert_sorted-All Known a [] k ks = (k, tt)
insert_sorted-All Known a (x ∷ xs) k ks = elim (Bool-cases (sorts_before a x)) [
  | inl e ↦ rw e (k, ks)
  | inr e ↦ rw e (ks.0, insert_sorted-All Known a xs k ks.1)
]

-- Sorting keeps what holds of every update.
pub sort_updates-All :
    (Known : Announced → Type 0) (xs : List Announced) → All Known xs → All Known (sort_updates xs)
unfolding sort_updates
sort_updates-All Known [] ks = tt
sort_updates-All Known (x ∷ xs) ks =
    insert_sorted-All Known x (sort_updates xs) ks.0 (sort_updates-All Known xs ks.1)
