-- ===== src/Prelude/Text/Laws.antt =====
-- Texts by their characters.
use Prim.Native.Char.{Char}
use Prim.Native.String.{String, [], ◌∷◌}
use mathlib.Core.Bool.{Bool, true, ◌&&◌}
use mathlib.Core.Path.{◌≡◌}
use native.Mathlib.Omega.{arith}
use text.Mathlib.Text.{◌==◌}
use text.Mathlib.TextEquality.{eq_iff}
use text.Mathlib.TextLemmas.{cons-append, nil-append, cons≢nil}
use mathlib.Core.Logic.{inl, inr}
use pact_web.Prelude.Tests.{Bool-cases}
use pact_web.Prelude.Text.{truthy, ◌<>◌}

pub truthy-cons : (c : Char) (s : String) → truthy (String.◌∷◌ c s) ≡ true
truthy-cons c s = elim (Bool-cases (String.◌∷◌ c s == "")) [
  | inl e ↦ absurd (cons≢nil ((eq_iff (String.◌∷◌ c s) "").0 e))
  | inr e ↦ rw e
]

-- A test that every character passes.
abbrev pub all_characters : (Char → Bool) → String → Bool
all_characters p [] = true
all_characters p (c ∷ s) = p c && all_characters p s

pub all_characters-append :
    (p : Char → Bool) (s t : String)
    → all_characters p s ≡ true
    → all_characters p t ≡ true
    → all_characters p (s <> t) ≡ true
all_characters-append p [] t hs ht = rw nil-append ht
all_characters-append p (c ∷ s) t hs ht =
    rw cons-append (ground (arith, all_characters-append p s t))
