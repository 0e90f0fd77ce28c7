-- ===== src/Prelude/Uri.antt =====
-- `encodeURIComponent`: letters, digits and `-_.!~*'()` stand for themselves, and any other
-- character for the percent codes of its UTF-8 bytes. A text has no lone surrogate here.
pub mod Safety
use Prim.Native.Char.{Char, code}
use Prim.Native.Nat.{ℕ, zero, suc, ◌+◌, ◌/◌, ◌%◌}
use Prim.Native.String.{String, [], ◌∷◌}
use mathlib.Core.Bool.{Bool, ◌||◌, ◌&&◌}
use pact_web.Prelude.Tests.{eqb, leb, ltb, if◌then◌else◌}
use pact_web.Prelude.Text.{◌<>◌}

-- The character at a position, as a text.
abbrev pub char_at : String → ℕ → String
char_at [] n = []
char_at (c ∷ s) zero = c ∷ []
char_at (c ∷ s) (suc n) = char_at s n

unfoldable pub hex : ℕ → String
hex n = char_at "0123456789ABCDEF" n

unfoldable pub percent : ℕ → String
percent byte = "%" <> hex (byte / 16) <> hex (byte % 16)

-- A continuation byte.
abbrev pub tail_byte : ℕ → String
tail_byte n = percent (0x80 + n % 64)

unfoldable pub encode_code : ℕ → String
encode_code c =
    if ltb c 0x80
    then percent c
    else if ltb c 0x800
    then percent (0xc0 + c / 64) <> tail_byte c
    else if ltb c 0x10000
    then percent (0xe0 + c / 4096) <> tail_byte (c / 64) <> tail_byte c
    else percent (0xf0 + c / 262144) <> tail_byte (c / 4096) <> tail_byte (c / 64) <> tail_byte c

unfoldable pub is_unreserved : ℕ → Bool
is_unreserved c =
    leb b'A' c && leb c b'Z'
    || leb b'a' c && leb c b'z'
    || leb b'0' c && leb c b'9'
    || eqb c b'-'
    || eqb c b'_'
    || eqb c b'.'
    || eqb c b'!'
    || eqb c b'~'
    || eqb c b'*'
    || eqb c 39
    || eqb c b'('
    || eqb c b')'

unfoldable pub encode_uri_component : String → String
encode_uri_component [] = []
encode_uri_component (c ∷ s) =
    let rest = encode_uri_component s in
    if is_unreserved (code c) then c ∷ rest else encode_code (code c) <> rest
