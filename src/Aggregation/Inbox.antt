-- ===== src/Aggregation/Inbox.antt =====
-- packages/aggregation/src/service/inbox-buffer.ts: `InboxBuffer`. An identifier is the decimal text of
-- a number and stands here as the number; `parse` gives `Number(text)` rounded down, at least 0, and
-- `none` where it is not finite: the same identifiers are above it.
pub mod Replay
use did_btcr2_js.Prelude.{
  List, Option, [], filter, if◌then◌else◌, length, ltb, nat_eq, none, not, some, string_eq, ℕ, ◌++◌,
  ◌+◌, ◌==◌, ◌∷◌,
}
use did_btcr2_js.Prelude.Result.{Result, guard, ok, ◌>>◌}
use Prim.Native.String.{String}

pub record StoredEvent : Type 0 where
  pub id : ℕ
  pub event : String
  pub payload : String

pub record InboxBuffer : Type 0 where
  pub capacity : ℕ
  pub entries : List StoredEvent
  pub next_id : ℕ

pub data InboxError : Type 0 where
  invalid_inbox_capacity : InboxError

unfoldable pub new_inbox : ℕ → Result InboxError InboxBuffer
new_inbox capacity = do
  guard (not (ltb capacity 1)) invalid_inbox_capacity
  ok (record { capacity = capacity; entries = []; next_id = 1 })

-- `Array.prototype.shift`
abbrev pub shift : List StoredEvent → List StoredEvent
shift [] = []
shift (x ∷ xs) = xs

abbrev pub trim : ℕ → List StoredEvent → List StoredEvent
trim capacity xs = if ltb capacity (length xs) then shift xs else xs

unfoldable pub append : InboxBuffer → String → String → InboxBuffer × StoredEvent
append b event payload =
    let stored : StoredEvent = record { id = b.next_id; event = event; payload = payload } in
    (
      record {
        capacity = b.capacity;
        entries = trim b.capacity (b.entries ++ stored ∷ []);
        next_id = b.next_id + 1;
      },
      stored,
    )

abbrev pub after : ℕ → List StoredEvent → List StoredEvent
after boundary xs = filter (λ e. ltb boundary e.id) xs

unfoldable pub since : (String → Option ℕ) → InboxBuffer → Option String → List StoredEvent
since parse b none = b.entries
since parse b (some text) =
    if text == ""
    then b.entries
    else elim (parse text) [ none ↦ b.entries | some boundary ↦ after boundary b.entries ]

pub size : InboxBuffer → ℕ
size b = length b.entries
