-- ===== src/Prelude/Trim/Laws.antt =====
-- Trimming twice is trimming once.
use Prim.Native.Char.{Char, code}
use Prim.Native.String.{String, [], ◌∷◌}
use mathlib.Core.Path.{◌≡◌, refl, ap, ◌∙◌}
use mathlib.Core.Logic.{inl, inr}
use mathlib.Core.Bool.{Bool, true, false, not}
use native.Mathlib.Omega.{arith}
use pact_web.Prelude.Tests.{Bool-cases}
use pact_web.Prelude.Trim.{is_space, trim_start, trim_end, trim_cons, trim}

abbrev starts_solid : String → Bool
starts_solid [] = true
starts_solid (c ∷ s) = not (is_space (code c))

trim_start_solid : (s : String) → starts_solid (trim_start s) ≡ true
unfolding trim_start
trim_start_solid [] = refl
trim_start_solid (c ∷ s) = ground (arith, trim_start_solid s)

trim_start_of_solid : (s : String) → starts_solid s ≡ true → trim_start s ≡ s
unfolding trim_start
trim_start_of_solid [] h = refl
trim_start_of_solid (c ∷ s) h = ground arith

trim_cons_solid :
    (c : Char) (t : String) → is_space (code c) ≡ false → starts_solid (trim_cons c t) ≡ true
trim_cons_solid c [] h = ground arith
trim_cons_solid c (d ∷ t) h = ground arith

trim_end_solid : (s : String) → starts_solid s ≡ true → starts_solid (trim_end s) ≡ true
unfolding trim_end
trim_end_solid [] h = refl
trim_end_solid (c ∷ s) h = trim_cons_solid c (trim_end s) (ground arith)

trim_end_cons : (c : Char) (t : String) → trim_end t ≡ t → trim_end (trim_cons c t) ≡ trim_cons c t
unfolding trim_end
trim_end_cons c [] h = elim (Bool-cases (is_space (code c))) [
  | inl space ↦ rw space refl
  | inr solid ↦ rw solid (rw solid refl)
]
trim_end_cons c (d ∷ t) h = ap (trim_cons c) h

trim_end_idem : (s : String) → trim_end (trim_end s) ≡ trim_end s
unfolding trim_end
trim_end_idem [] = refl
trim_end_idem (c ∷ s) = trim_end_cons c (trim_end s) (trim_end_idem s)

pub trim_idem : (s : String) → trim (trim s) ≡ trim s
unfolding trim
trim_idem s =
    ap trim_end (
      trim_start_of_solid (trim_end (trim_start s))
        (trim_end_solid (trim_start s) (trim_start_solid s)))
    ∙ trim_end_idem (trim_start s)
