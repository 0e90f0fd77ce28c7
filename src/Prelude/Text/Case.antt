-- ===== src/Prelude/Text/Case.antt =====
-- `toLowerCase`, for a comparison with an ASCII word.
use Prim.Native.Char.{code}
use Prim.Native.Nat.{ℕ, ◌+◌}
use Prim.Native.String.{String, [], ◌∷◌}
use mathlib.Core.Bool.{Bool, true, false, ◌&&◌}
use pact_web.Prelude.Tests.{eqb, leb, if◌then◌else◌}

-- The ASCII letters, and the Kelvin sign, whose lower case is `k`. No other character's lower case
-- is a single ASCII character.
abbrev lower_code : ℕ → ℕ
lower_code c = if leb b'A' c && leb c b'Z' then c + 32 else if eqb c 0x212a then b'k' else c

-- `s.toLowerCase() === word`
unfoldable pub equals_lower : String → String → Bool
equals_lower [] [] = true
equals_lower (c ∷ word) (d ∷ s) =
    let rest = equals_lower word s in eqb (code c) (lower_code (code d)) && rest
equals_lower _ _ = false
