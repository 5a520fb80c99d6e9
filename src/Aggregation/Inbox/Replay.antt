-- ===== src/Aggregation/Inbox/Replay.antt =====
-- What a subscriber of an `InboxBuffer` is sent when it connects again.
use did_btcr2_js.Prelude.{
  not, Option, ap, false, nat_eq, some, string_eq, sym, ◌<◌, ◌==◌, ◌∙◌, Bool-cases, List, [], arith,
  inl, inr, length, length-append, ltb, refl, suc, ℕ, ◌++◌, ◌+◌, ◌∷◌, ◌≡◌, ◌≤◌,
}
use did_btcr2_js.Aggregation.Inbox.{
  invalid_inbox_capacity, new_inbox, after, since, InboxBuffer, StoredEvent, append, trim,
}
use Prim.Native.String.{String}
use mathlib.Core.List.{append_assoc, append-nil}
use did_btcr2_js.Prelude.Result.{Holds, Holds->>=, guard}

-- Identifiers count up from `first`, and `next` is the one after the last.
abbrev pub Consecutive : ℕ → ℕ → List StoredEvent → Type 0
Consecutive first next [] = first ≡ next
Consecutive first next (x ∷ xs) = (x.id ≡ first) × Consecutive (suc first) next xs

pub record IsBuffer (b : InboxBuffer) : Type 0 where
  pub first : ℕ
  pub positive : 1 ≤ first
  pub consecutive : Consecutive first b.next_id b.entries
  pub bounded : length b.entries ≤ b.capacity

Consecutive-length :
    (first next : ℕ) (xs : List StoredEvent) → Consecutive first next xs → first + length xs ≡ next
Consecutive-length first next [] c = omega (arith, c)
Consecutive-length first next (x ∷ xs) c = omega (arith, Consecutive-length (suc first) next xs c.1)

Consecutive-append :
    (first next : ℕ) (xs : List StoredEvent) (e : StoredEvent)
    → e.id ≡ next
    → Consecutive first next xs
    → Consecutive first (next + 1) (xs ++ e ∷ [])
Consecutive-append first next [] e i c = (omega (arith, i, c), omega (arith, c))
Consecutive-append first next (x ∷ xs) e i c = (c.0, Consecutive-append (suc first) next xs e i c.1)

-- `append` keeps the identifiers of the buffer consecutive, the last one just below the next, and the
-- number of events within the capacity.
pub append-IsBuffer :
    (b : InboxBuffer) (event payload : String) → IsBuffer b → IsBuffer (append b event payload).0
unfolding append
append-IsBuffer b event payload h =
    trimmed (b.entries ++ stored ∷ [])
      (Consecutive-append h.first b.next_id b.entries stored refl h.consecutive)
      (omega (arith, h.bounded, length-append b.entries (stored ∷ [])))
  where
    stored : StoredEvent
    stored = record { id = b.next_id; event = event; payload = payload }

    trimmed :
        (xs : List StoredEvent)
        → Consecutive h.first (b.next_id + 1) xs
        → length xs ≤ b.capacity + 1
        → IsBuffer (record {
          capacity = b.capacity;
          entries = trim b.capacity xs;
          next_id = b.next_id + 1;
        })
    trimmed [] c l = record {
      first = h.first;
      positive = h.positive;
      consecutive = ground (arith, c);
      bounded = ground arith;
    }
    trimmed (x ∷ xs) c l = elim (Bool-cases (ltb b.capacity (length (x ∷ xs)))) [
      | inl full ↦ record {
        first = suc h.first;
        positive = omega arith;
        consecutive = rw full c.1;
        bounded = rw full (omega arith);
      }
      | inr room ↦ record {
        first = h.first;
        positive = h.positive;
        consecutive = rw room c;
        bounded = rw room (ground arith);
      }
    ]

new_inbox-IsBuffer : (capacity : ℕ) → Holds IsBuffer (new_inbox capacity)
unfolding new_inbox
new_inbox-IsBuffer capacity =
    Holds->>= IsBuffer (guard (not (ltb capacity 1)) invalid_inbox_capacity) _ (λ _ _. record {
      first = 1;
      positive = omega arith;
      consecutive = refl;
      bounded = omega arith;
    })

-- Nothing in the buffer is above its last identifier.
after-last :
    (first next n : ℕ) (xs : List StoredEvent)
    → Consecutive first next xs
    → next ≤ n + 1
    → after n xs ≡ []
after-last first next n [] c h = refl
after-last first next n (x ∷ xs) c h =
    ground (
      arith,
      c.0,
      Consecutive-length (suc first) next xs c.1,
      after-last (suc first) next n xs c.1 h,
    )

after-append :
    (n : ℕ) (xs : List StoredEvent) (e : StoredEvent)
    → n < e.id
    → after n (xs ++ e ∷ []) ≡ after n xs ++ e ∷ []
after-append n [] e h = ground arith
after-append n (x ∷ xs) e h = ground (arith, after-append n xs e h)

after-trim :
    (n first next capacity : ℕ) (xs : List StoredEvent)
    → Consecutive first next xs
    → length xs ≤ capacity + 1
    → next ≤ n + 1 + capacity
    → after n (trim capacity xs) ≡ after n xs
after-trim n first next capacity [] c l h = ground arith
after-trim n first next capacity (x ∷ xs) c l h =
    ground (arith, c.0, Consecutive-length (suc first) next xs c.1)

abbrev pub Message : Type 0
Message = String × String

abbrev pub append_all : InboxBuffer → List Message → InboxBuffer
append_all b [] = b
append_all b ((event, payload) ∷ rest) = append_all (append b event payload).0 rest

abbrev pub stored_from : ℕ → List Message → List StoredEvent
stored_from next [] = []
stored_from next ((event, payload) ∷ rest) =
    record { id = next; event = event; payload = payload } ∷ stored_from (suc next) rest

after-append_all :
    (n : ℕ) (xs : List Message) (b : InboxBuffer)
    → IsBuffer b
    → n < b.next_id
    → b.next_id + length xs ≤ n + 1 + b.capacity
    → after n (append_all b xs).entries ≡ after n b.entries ++ stored_from b.next_id xs
unfolding append
after-append_all n [] b h lt le = sym (append-nil (after n b.entries))
after-append_all n ((event, payload) ∷ rest) b h lt le =
    let stored : StoredEvent = record { id = b.next_id; event = event; payload = payload } in
    let number : b.next_id + 1 ≡ suc b.next_id = omega arith in
    let more =
      after-append_all n rest (append b event payload).0 (append-IsBuffer b event payload h)
        (omega arith) (omega (arith, le)) in
    let kept =
      after-trim n h.first (b.next_id + 1) b.capacity (b.entries ++ stored ∷ [])
        (Consecutive-append h.first b.next_id b.entries stored refl h.consecutive)
        (omega (arith, h.bounded, length-append b.entries (stored ∷ []))) (omega (arith, le)) in
    more
    ∙ ap (λ ys. ys ++ stored_from (b.next_id + 1) rest) (kept ∙ after-append n b.entries stored lt)
    ∙ append_assoc (after n b.entries) (stored ∷ []) (stored_from (b.next_id + 1) rest)
    ∙ ap (λ m. after n b.entries ++ stored ∷ stored_from m rest) number

-- A subscriber that connects again with the last identifier that was given out before is sent exactly
-- the events that were appended since, in order, if there were not more than the buffer holds.
pub since-append_all :
    (parse : String → Option ℕ) (b : InboxBuffer) (text : String) (n : ℕ) (xs : List Message)
    → IsBuffer b
    → (text == "") ≡ false
    → parse text ≡ some n
    → n + 1 ≡ b.next_id
    → length xs ≤ b.capacity
    → since parse (append_all b xs) (some text) ≡ stored_from b.next_id xs
unfolding since
since-append_all parse b text n xs h full parsed last fits =
    rw (full, parsed)
      (after-append_all n xs b h (omega arith) (omega arith)
        ∙ ap (λ ys. ys ++ stored_from b.next_id xs)
            (after-last h.first b.next_id n b.entries h.consecutive (omega arith)))
