-- ===== src/Prelude/Utf8.antt =====
-- `new TextEncoder().encode(text)`: the UTF-8 bytes of a text.
use Prim.Native.Nat.{ℕ, ◌+◌, ◌/◌, ◌%◌}
use Prim.Native.Char.{code}
use Prim.Native.String.{String}
use mathlib.Core.List.{List, [], ◌∷◌, ◌++◌}
use did_btcr2_js.Prelude.Tests.{ltb, if◌then◌else◌}

char_bytes : ℕ → List ℕ
char_bytes c =
    if ltb c 0x80
    then c ∷ []
    else if ltb c 0x800
    then (0xc0 + c / 64) ∷ (0x80 + c % 64) ∷ []
    else if ltb c 0x10000
    then (0xe0 + c / 4096) ∷ (0x80 + c / 64 % 64) ∷ (0x80 + c % 64) ∷ []
    else (0xf0 + c / 262144) ∷ (0x80 + c / 4096 % 64) ∷ (0x80 + c / 64 % 64) ∷ (0x80 + c % 64) ∷ []

unfoldable pub encode_utf8 : String → List ℕ
unfolding char_bytes
encode_utf8 String.[] = []
encode_utf8 (String.◌∷◌ c s) = char_bytes (code c) ++ encode_utf8 s
