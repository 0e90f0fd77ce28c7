-- ===== src/Prelude/Text.antt =====
-- Texts as the source's strings: truthiness, decimal print, ASCII case, trimming, splitting.
pub mod Laws
pub mod Case
use Prim.Native.Nat.{ℕ, zero, suc, ◌/◌, ◌%◌}
use Prim.Native.String
use Prim.Native.String.{String}
use mathlib.Core.Bool.{Bool, false, not}
use mathlib.Core.Option.{Option, none, some}
use text.Mathlib.Text.{◌==◌}
use pact_web.Prelude.Tests.{ltb, if◌then◌else◌}

infixr 64 ◌<>◌
-- Concatenation, for template literals.
abbrev pub ◌<>◌ : String → String → String
s <> t = String.◌++◌ s t

-- `Boolean(s)` on a string: every string but the empty one.
abbrev pub truthy : String → Bool
truthy s = not (s == "")

-- `Boolean(s)` on an optional string.
abbrev pub truthy_opt : Option String → Bool
truthy_opt none = false
truthy_opt (some s) = truthy s

-- `s || undefined`
abbrev pub or_undefined : Option String → Option String
or_undefined none = none
or_undefined (some s) = if truthy s then some s else none

digit : ℕ → String
digit zero = "0"
digit (suc zero) = "1"
digit (suc (suc zero)) = "2"
digit (suc (suc (suc zero))) = "3"
digit (suc (suc (suc (suc zero)))) = "4"
digit (suc (suc (suc (suc (suc zero))))) = "5"
digit (suc (suc (suc (suc (suc (suc zero)))))) = "6"
digit (suc (suc (suc (suc (suc (suc (suc zero))))))) = "7"
digit (suc (suc (suc (suc (suc (suc (suc (suc zero)))))))) = "8"
digit _ = "9"

-- The fuel bounds the number of digits.
show_from : ℕ → ℕ → String
show_from zero n = ""
show_from (suc f) n =
    let more = show_from f (n / 10) <> digit (n % 10) in if ltb n 10 then digit n else more

-- `String(n)` of a whole number; a number below 10 ^ 20 has at most 20 digits.
unfoldable pub show : ℕ → String
unfolding show_from digit
show n = show_from 20 n
