-- ===== src/Tests/Inbox.antt =====
-- The theorems on the inbox buffer at work on a buffer for two events.
use did_btcr2_js.Prelude.{List, [], arith, refl, some, ◌∷◌, ◌≡◌}
use did_btcr2_js.Aggregation.Inbox.Replay.{
  IsBuffer, Message, append-IsBuffer, append_all, since-append_all, stored_from,
}
use did_btcr2_js.Aggregation.Inbox.{InboxBuffer, append, since}

abbrev buffer : InboxBuffer
buffer = record {
  capacity = 2;
  entries = record { id = 1; event = "m"; payload = "first" } ∷ [];
  next_id = 2;
}

abbrev missed : List Message
missed = ("m", "second") ∷ ("m", "third") ∷ []

buffer-IsBuffer : IsBuffer buffer
buffer-IsBuffer = record {
  first = 1;
  positive = omega arith;
  consecutive = (refl, refl);
  bounded = omega arith;
}

append-IsBuffer_example : IsBuffer (append buffer "m" "second").0
append-IsBuffer_example = append-IsBuffer buffer "m" "second" buffer-IsBuffer

since-append_all_example :
    since (λ t. some 1) (append_all buffer missed) (some "1") ≡ stored_from 2 missed
since-append_all_example =
    since-append_all (λ t. some 1) buffer "1" 1 missed buffer-IsBuffer refl refl refl (omega arith)

-- The first event is gone, and both missed events are there.
trimmed_test : (append_all buffer missed).entries ≡ stored_from 2 missed
unfolding append
trimmed_test = refl
