-- ===== src/Aggregation/Service/Collection/Senders.antt =====
-- The senders of a list of messages, beside the members that have answered.
use did_btcr2_js.Prelude.{
  All, All-append, All-map, List, [], ap, arith, false, length, length-append, map, nat_eq, refl,
  string_eq, suc, sym, true, ◌++◌, ◌+◌, ◌==◌, ◌||◌, ◌∙◌, ◌∷◌, ◌≡◌,
}
use did_btcr2_js.Aggregation.Cohort.Answers.{
  IsAnswered, IsExclusive, answers, answers-NoRepeat, has_responded, includes-answers,
  length-answers,
}
use did_btcr2_js.Prelude.Counting.{NoRepeat, NoRepeat-append, covers_all, includes-append_list}
use did_btcr2_js.Aggregation.Service.Collection.{IsResponse, responses}
use did_btcr2_js.Prelude.Dict.{includes}
use did_btcr2_js.Aggregation.Service.{CohortState, Host}
use text.Mathlib.TextEquality.{eq_iff}
use Prim.Native.String.{String}
use did_btcr2_js.Aggregation.Messages.{Message}

abbrev pub IsFresh : CohortState → Message → Type 0
IsFresh s m = has_responded m.from s.cohort ≡ false

-- No two messages are from one sender.
abbrev pub DistinctSenders : List Message → Type 0
DistinctSenders [] = Unit
DistinctSenders (m ∷ ms) = All (λ n. (m.from == n.from) ≡ false) ms × DistinctSenders ms

abbrev pub senders : List Message → List String
senders ms = map (λ m. m.from) ms

senders-NoRepeat : (ms : List Message) → DistinctSenders ms → NoRepeat (senders ms)
senders-NoRepeat [] d = tt
senders-NoRepeat (m ∷ ms) (d, ds) = (apart ms d, senders-NoRepeat ms ds)
  where
    apart :
        (ns : List Message)
        → All (λ n. (m.from == n.from) ≡ false) ns
        → includes m.from (senders ns) ≡ false
    apart [] a = refl
    apart (n ∷ ns) a =
        ground (arith, a.0, apart ns a.1, (eq_iff n.from m.from).0, (eq_iff m.from n.from).1)

senders-All :
    (P : String → Type 0) (ms : List Message) → All (λ m. P m.from) ms → All P (senders ms)
senders-All P [] h = tt
senders-All P (m ∷ ms) h = (h.0, senders-All P ms h.1)

length-senders : (ms : List Message) → length (senders ms) ≡ length ms
length-senders [] = refl
length-senders (m ∷ ms) = ap suc (length-senders ms)

-- As many senders as answers are missing: each member is a sender or has answered.
pub members_covered :
    (host : Host) (id : String) (ms : List Message) (s : CohortState)
    → IsAnswered s.cohort
    → IsExclusive s.cohort
    → All (IsResponse host id s) ms
    → All (IsFresh s) ms
    → DistinctSenders ms
    → responses s.cohort + length ms ≡ length s.cohort.participants
    → All (λ d. (has_responded d s.cohort || includes d (senders ms)) ≡ true) s.cohort.participants
members_covered host id ms s a x r fresh d count =
    let (once, of_members) = answers-NoRepeat s.cohort a x in
    let apart =
      senders-All (λ y. includes y (answers s.cohort) ≡ false) ms
        (All-map ms (λ m f. includes-answers m.from s.cohort ∙ f) fresh) in
    let own =
      senders-All (λ y. includes y s.cohort.participants ≡ true) ms
        (All-map ms (λ m i. i.member) r) in
    let sizes =
      length-append (senders ms) (answers s.cohort)
      ∙ ap (λ n. n + length (answers s.cohort)) (length-senders ms) in
    All-map s.cohort.participants
      (λ did there.
        let split = sym (includes-append_list did (senders ms) (answers s.cohort)) ∙ there in
        ground (arith, split, includes-answers did s.cohort))
      (covers_all (senders ms ++ answers s.cohort) s.cohort.participants
        (NoRepeat-append (senders ms) (answers s.cohort) (senders-NoRepeat ms d) once apart)
        (All-append (λ y. includes y s.cohort.participants ≡ true) (senders ms) (answers s.cohort)
          own of_members)
        (omega (arith, sizes, length-answers s.cohort, count)))
