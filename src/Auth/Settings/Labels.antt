-- ===== src/Auth/Settings/Labels.antt =====
-- Labels of passkeys, by their UTF-16 units.
use Prim.Native.Char.{code}
use Prim.Native.String.{[], ◌∷◌}
use pact_web.Prelude.{ℕ, zero, suc, ◌≤◌, ◌≡◌, true, ltb, Bool-cases, inl, inr, String, arith}
use pact_web.Prelude.Text.{truthy}
use pact_web.Auth.MfaVerify.{utf16_length}
use pact_web.Auth.Settings.BeginPasskey.{first_units, enrolled_label}

abbrev pub IsFull : String → Type 0
IsFull s = truthy s ≡ true

-- One to sixty-four UTF-16 units.
unfoldable pub IsLabel : String → Type 0
IsLabel label = (1 ≤ utf16_length label) × (utf16_length label ≤ 64)

utf16_length-first_units : (n : ℕ) (s : String) → utf16_length (first_units n s) ≤ n
unfolding utf16_length first_units
utf16_length-first_units zero s = omega arith
utf16_length-first_units (suc zero) [] = omega arith
utf16_length-first_units (suc zero) (c ∷ s) = elim (Bool-cases (ltb (code c) 0x10000)) [
  | inl e ↦ rw (e, e) (omega arith)
  | inr e ↦ rw e (omega arith)
]
utf16_length-first_units (suc (suc n)) [] = omega arith
utf16_length-first_units (suc (suc n)) (c ∷ s) = elim (Bool-cases (ltb (code c) 0x10000)) [
  | inl e ↦ rw (e, e) (omega (arith, utf16_length-first_units (suc n) s))
  | inr e ↦ rw (e, e) (omega (arith, utf16_length-first_units n s))
]

pub utf16_length-full : (s : String) → IsFull s → 1 ≤ utf16_length s
unfolding utf16_length
utf16_length-full [] h = cc
utf16_length-full (c ∷ s) h = ground arith

first_units-full : (n : ℕ) (s : String) → IsFull s → 1 ≤ utf16_length (first_units (suc n) s)
unfolding utf16_length first_units
first_units-full n [] h = cc
first_units-full zero (c ∷ s) h = elim (Bool-cases (ltb (code c) 0x10000)) [
  | inl e ↦ rw (e, e) (omega arith)
  | inr e ↦ rw e (omega arith)
]
first_units-full (suc n) (c ∷ s) h = ground arith

pub enrolled_label-IsLabel : (raw : String) → IsLabel (enrolled_label raw)
unfolding enrolled_label IsLabel utf16_length
enrolled_label-IsLabel raw = elim (Bool-cases (truthy raw)) [
  | inl full ↦ rw full (first_units-full 63 raw full, utf16_length-first_units 64 raw)
  | inr empty ↦ rw empty (omega arith, omega arith)
]
