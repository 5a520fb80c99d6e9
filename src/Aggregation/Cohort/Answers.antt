-- ===== src/Aggregation/Cohort/Answers.antt =====
-- The DIDs of a cohort that have responded, as a list without repeats.
use did_btcr2_js.Prelude.Dict.{Dict, Distinct, get, has, includes}
use Prim.Native.String.{String}
use did_btcr2_js.Prelude.{
  All, All-append, All-map, Bool, List, [], ap, arith, false, is_some, length, length-append, map,
  nat_eq, refl, string_eq, suc, true, ◌++◌, ◌+◌, ◌||◌, ◌∙◌, ◌∷◌, ◌≡◌,
}
use did_btcr2_js.Prelude.Counting.{NoRepeat, NoRepeat-append, includes-append_list}
use text.Mathlib.TextEquality.{eq_iff}
use did_btcr2_js.Aggregation.Cohort.{Cohort}
use did_btcr2_js.Common.Json.{Json}
use text.Mathlib.TextPositions.{eq_refl}

-- Responses come from participants, and no DID stands twice among them.
pub record IsAnswered (k : Cohort) : Type 0 where
  pub update_members : All (λ x. includes x.0 k.participants ≡ true) k.pending_updates
  pub declined_members : All (λ d. includes d k.participants ≡ true) k.non_included
  pub ack_members : All (λ d. includes d k.participants ≡ true) k.validation_acks
  pub rejection_members : All (λ d. includes d k.participants ≡ true) k.validation_rejections
  pub distinct : Distinct k.pending_updates

abbrev pub has_responded : String → Cohort → Bool
has_responded did k = has did k.pending_updates || includes did k.non_included

-- No DID has declined twice, and none has both submitted and declined.
pub record IsExclusive (k : Cohort) : Type 0 where
  pub declined_once : NoRepeat k.non_included
  pub exclusive : All (λ d. has d k.pending_updates ≡ false) k.non_included

-- The DIDs that have responded.
abbrev pub answers : Cohort → List String
answers k = map (λ x. x.0) k.pending_updates ++ k.non_included

includes-keys : (d : String) (m : Dict String Json) → includes d (map (λ x. x.0) m) ≡ has d m
unfolding get
includes-keys d [] = refl
includes-keys d ((j, u) ∷ m) = ground (arith, includes-keys d m)

keys-NoRepeat : (m : Dict String Json) → Distinct m → NoRepeat (map (λ x. x.0) m)
keys-NoRepeat [] h = tt
keys-NoRepeat ((j, u) ∷ m) h = (includes-keys j m ∙ ap is_some h.0, keys-NoRepeat m h.1)

keys-All :
    (P : String → Type 0) (m : Dict String Json) → All (λ x. P x.0) m → All P (map (λ x. x.0) m)
keys-All P [] h = tt
keys-All P (x ∷ m) h = (h.0, keys-All P m h.1)

keys-apart :
    (m : Dict String Json) (ds : List String)
    → All (λ d. has d m ≡ false) ds
    → All (λ x. includes x ds ≡ false) (map (λ x. x.0) m)
unfolding get
keys-apart [] ds h = tt
keys-apart ((j, u) ∷ m) ds h =
    (apart ds h, keys-apart m ds (All-map ds (λ d absent. ground (arith, absent)) h))
  where
    apart : (es : List String) → All (λ d. has d ((j, u) ∷ m) ≡ false) es → includes j es ≡ false
    apart [] a = refl
    apart (d ∷ es) a = ground (arith, a.0, apart es a.1, eq_refl j, (eq_iff d j).0, (eq_iff j d).1)

pub includes-answers : (d : String) (k : Cohort) → includes d (answers k) ≡ has_responded d k
includes-answers d k =
    includes-append_list d (map (λ x. x.0) k.pending_updates) k.non_included
    ∙ ap (λ b. b || includes d k.non_included) (includes-keys d k.pending_updates)

length-keys : (m : Dict String Json) → length (map (λ x. x.0) m) ≡ length m
length-keys [] = refl
length-keys (x ∷ m) = ap suc (length-keys m)

pub length-answers :
    (k : Cohort) → length (answers k) ≡ length k.pending_updates + length k.non_included
length-answers k =
    length-append (map (λ x. x.0) k.pending_updates) k.non_included
    ∙ ap (λ n. n + length k.non_included) (length-keys k.pending_updates)

-- The DIDs that have responded are members, each once.
pub answers-NoRepeat :
    (k : Cohort)
    → IsAnswered k
    → IsExclusive k
    → NoRepeat (answers k) × All (λ d. includes d k.participants ≡ true) (answers k)
answers-NoRepeat k a x = (
  NoRepeat-append (map (λ x. x.0) k.pending_updates) k.non_included
      (keys-NoRepeat k.pending_updates a.distinct) x.declined_once
      (keys-apart k.pending_updates k.non_included x.exclusive),
  All-append (λ d. includes d k.participants ≡ true) (map (λ x. x.0) k.pending_updates)
      k.non_included
      (keys-All (λ d. includes d k.participants ≡ true) k.pending_updates a.update_members)
      a.declined_members,
)
