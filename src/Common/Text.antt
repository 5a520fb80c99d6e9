-- ===== src/Common/Text.antt =====
-- `String.prototype.split` by one character, and `startsWith` with the rest of the text.
use Prim.Native.Char.{Char, code}
use Prim.Native.String
use Prim.Native.String.{String}
use did_btcr2_js.Prelude.{List, [], if◌then◌else◌, nat_beq, none, some, ℕ, ◌∷◌, Option}

abbrev push : String → Char → String
push s c = String.◌++◌ s (String.◌∷◌ c String.[])

-- The loop of `split`, with the part that is being read.
unfoldable pub split_from : ℕ → String → String → List String
split_from sep cur String.[] = cur ∷ []
split_from sep cur (String.◌∷◌ c s) =
    let closed = split_from sep "" s in
    let longer = split_from sep (push cur c) s in
    if nat_beq (code c) sep then cur ∷ closed else longer

unfoldable pub split : ℕ → String → List String
unfolding split_from
split sep text = split_from sep "" text

-- `text.split(sep)[0]`
unfoldable pub first_part : ℕ → String → String
unfolding split
first_part sep text = elim (split sep text) [ [] ↦ "" | part ∷ _ ↦ part ]

-- What follows a prefix, `none` where `startsWith` is false.
unfoldable pub strip_prefix : String → String → Option String
strip_prefix String.[] text = some text
strip_prefix (String.◌∷◌ p ps) String.[] = none
strip_prefix (String.◌∷◌ p ps) (String.◌∷◌ c s) =
    if nat_beq (code p) (code c) then strip_prefix ps s else none
