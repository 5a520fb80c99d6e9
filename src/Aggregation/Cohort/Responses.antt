-- ===== src/Aggregation/Cohort/Responses.antt =====
-- The responses of the participants of a cohort, and the announcement built from them.
use did_btcr2_js.Prelude.{
  All-map, sym, all, length, nat_beq, nat_beq_iff, ◌+◌, ◌∙◌, All, Bool, Bool-cases, List, Option,
  [], arith, false, if◌then◌else◌, inl, inr, nat_eq, none, not, refl, some, string_eq, true, ◌==◌,
  ◌∷◌, ◌≡◌,
}
use did_btcr2_js.Prelude.Result.{>>=-eq-ok, Holds, Holds->>=, guard, guard-eq-ok, ok}
use did_btcr2_js.Prelude.Dict.{
  All-set, Dict, Distinct, Distinct-set, add, get, get-set, has, includes, set,
}
use did_btcr2_js.Aggregation.Cohort.{
  build_cas_announcement, has_all_responses, incomplete_responses, Cohort, add_non_inclusion,
  add_update, add_validation, announce, conflicting_response, unknown_participant,
}
use Prim.Native.String.{String}
use did_btcr2_js.Common.Json.{Json}
use text.Mathlib.TextPositions.{eq_refl}
use did_btcr2_js.Smt.Hash.{Bytes}
use text.Mathlib.TextEquality.{eq_iff}
use did_btcr2_js.Prelude.Counting.{covers_all}
use did_btcr2_js.Aggregation.Cohort.Answers.{
  IsAnswered, IsExclusive, answers, answers-NoRepeat, has_responded, includes-answers,
  length-answers,
}

pub All-add :
    (P : String → Type 0) (a : String) (xs : List String) → P a → All P xs → All P (add a xs)
unfolding add
All-add P a [] p h = (p, tt)
All-add P a (x ∷ xs) p h = elim (Bool-cases (x == a)) [
  | inl e ↦ rw e h
  | inr e ↦ rw e (h.0, All-add P a xs p h.1)
]

-- Every operation that records a response keeps the responses those of participants.
pub operations-IsAnswered :
    (k : Cohort)
    → IsAnswered k
    → ((did : String) (u : Json) → Holds IsAnswered (add_update k did u))
      × ((did : String) → Holds IsAnswered (add_non_inclusion k did))
      × ((did : String) (approved : Bool) → Holds IsAnswered (add_validation k did approved))
unfolding add_update add_non_inclusion add_validation
operations-IsAnswered k a = (
  λ did u. Holds->>= IsAnswered (guard (includes did k.participants) unknown_participant) _ (λ _ e.
      record {
        update_members =
            All-set (λ x. includes x.0 k.participants ≡ true) did u k.pending_updates
              a.update_members (guard-eq-ok _ _ e);
        declined_members = a.declined_members;
        ack_members = a.ack_members;
        rejection_members = a.rejection_members;
        distinct = Distinct-set did u k.pending_updates a.distinct;
      }),
  λ did. Holds->>= IsAnswered (guard (includes did k.participants) unknown_participant) _ (λ _ e.
      Holds->>= IsAnswered (guard (not (has did k.pending_updates)) conflicting_response) _ (λ _ _.
        record {
          update_members = a.update_members;
          declined_members =
              All-add (λ d. includes d k.participants ≡ true) did k.non_included (guard-eq-ok _ _ e)
                a.declined_members;
          ack_members = a.ack_members;
          rejection_members = a.rejection_members;
          distinct = a.distinct;
        })),
  λ did approved.
      Holds->>= IsAnswered (guard (includes did k.participants) unknown_participant) _
        (λ _ e. validated did (guard-eq-ok _ _ e) approved),
)
  where
    validated :
        (did : String)
        → includes did k.participants ≡ true
        → (b : Bool)
        → IsAnswered (
            if b
            then record k { validation_acks = add did k.validation_acks }
            else record k { validation_rejections = add did k.validation_rejections })
    validated did m true = record {
      update_members = a.update_members;
      declined_members = a.declined_members;
      ack_members =
          All-add (λ d. includes d k.participants ≡ true) did k.validation_acks m a.ack_members;
      rejection_members = a.rejection_members;
      distinct = a.distinct;
    }
    validated did m false = record {
      update_members = a.update_members;
      declined_members = a.declined_members;
      ack_members = a.ack_members;
      rejection_members =
          All-add (λ d. includes d k.participants ≡ true) did k.validation_rejections m
            a.rejection_members;
      distinct = a.distinct;
    }

-- What the announcement holds for a DID: the hash of its update, or what it held before.
abbrev pub announced : (Json → String) → Option Json → Option String → Option String
announced hash_text none old = old
announced hash_text (some u) old = some (hash_text u)

get-announce :
    (hash_text : Json → String) (did : String) (m : Dict String Json) (acc : Dict String String)
    → Distinct m
    → get did (announce hash_text m acc) ≡ announced hash_text (get did m) (get did acc)
unfolding announce get
get-announce hash_text did [] acc d = refl
get-announce hash_text did ((j, u) ∷ m) acc d =
    let rest = get-announce hash_text did m (set j (hash_text u) acc) d.1 in
    elim (Bool-cases (j == did)) [
      | inl e ↦
          let gone : get did m ≡ none = rw (← (eq_iff j did).0 e) d.0 in
          rest ∙ rw (gone, get-set j did (hash_text u) acc, e) refl
      | inr e ↦ rest ∙ rw (get-set j did (hash_text u) acc, e) refl
    ]

-- When the responses are those of participants, one from each, and no DID has both submitted and declined,
-- `buildCASAnnouncement` returns only when every participant has responded; the announcement then maps
-- each DID that has submitted an update to the hash of that update and no other DID, and the signal is
-- the hash of the announcement.
pub build_cas_announcement-get :
    (hash_text : Json → String) (hash_announcement : Dict String String → Bytes) (k k' : Cohort)
    (announcement : Dict String String)
    → IsAnswered k
    → IsExclusive k
    → build_cas_announcement hash_text hash_announcement k ≡ ok (k', announcement)
    → All (λ did. has_responded did k ≡ true) k.participants
      × ((did : String)
          → get did announcement ≡ announced hash_text (get did k.pending_updates) none)
      × (k'.signal_bytes ≡ some (hash_announcement announcement))
unfolding build_cas_announcement has_all_responses get
build_cas_announcement-get hash_text hash_announcement k k' announcement a x e =
    let made = announce hash_text k.pending_updates [] in
    let (t, all, e1) =
      >>=-eq-ok {B = Cohort × Dict String String}
        (guard (nat_beq (length k.pending_updates + length k.non_included) (length k.participants))
          incomplete_responses)
        (λ _. ok (
          record k { cas_announcement = some made; signal_bytes = some (hash_announcement made) },
          made,
        ))
        e in
    let count = (nat_beq_iff _ _).0 (guard-eq-ok _ _ all) in
    let (once, of_members) = answers-NoRepeat k a x in
    (
      All-map k.participants (λ did m. sym (includes-answers did k) ∙ m)
          (covers_all (answers k) k.participants once of_members
            (omega (arith, count, length-answers k))),
      λ did. ground (arith, e1, get-announce hash_text did k.pending_updates [] a.distinct),
      ground (arith, e1),
    )

includes-add : (a : String) (xs : List String) → includes a (add a xs) ≡ true
unfolding add
includes-add a [] = ground (arith, eq_refl a)
includes-add a (x ∷ xs) = ground (arith, includes-add a xs)

-- A participant can decline and then submit an update all the same: both calls return, and the DID
-- stands in both collections.
pub add_update-add_non_inclusion :
    (k : Cohort) (did : String) (u : Json)
    → includes did k.participants ≡ true
    → has did k.pending_updates ≡ false
    → (k' : Cohort) × (k'' : Cohort) × (add_non_inclusion k did ≡ ok k')
      × (add_update k' did u ≡ ok k'')
      × (includes did k''.non_included ≡ true)
      × (get did k''.pending_updates ≡ some u)
unfolding add_update add_non_inclusion
add_update-add_non_inclusion k did u m free =
    let declined : Cohort = record k { non_included = add did k.non_included } in
    (
      declined,
      record declined { pending_updates = set did u k.pending_updates },
      rw (m, free) refl,
      rw m refl,
      includes-add did k.non_included,
      ground (arith, get-set did did u k.pending_updates, eq_refl did),
    )
