-- ===== src/Auth/MfaVerify/Codes.antt =====
-- The codes that reach the gateway.
use Prim.Native.Char.{Char, code}
use Prim.Native.String.{[], ◌∷◌}
use pact_web.Prelude.{
  ◌≡◌, refl, ap, sym, subst, ◌∙◌, leb, if◌then◌else◌, Bool, true, false, Bool-cases, inl, inr,
  Option, none, some, String, ◌==◌, eq_iff, not, arith, Option-cases,
}
use pact_web.Prelude.Text.{truthy}
use pact_web.Prelude.Text.Laws.{all_characters}
use pact_web.Prelude.Json.{Json}
use pact_web.Prelude.Trim.{is_space, trim, trim_start, trim_end, trim_cons}
use pact_web.Prelude.Result.{Result, ok, err}
use pact_web.Auth.Client.{Answer, RawSession}
use pact_web.Auth.Routes.{full_string, field_of, ApiResponse, read_json_body}
use pact_web.Auth.MfaVerify.{
  remove_spaces, utf16_length, is_digit, is_six_digits, checked_code, checked_text, is_true,
  with_code, mfa_verify,
}

abbrev is_solid : Char → Bool
is_solid c = not (is_space (code c))

remove_spaces-solid : (s : String) → all_characters is_solid (remove_spaces s) ≡ true
unfolding remove_spaces
remove_spaces-solid [] = refl
remove_spaces-solid (c ∷ s) = ground (arith, remove_spaces-solid s)

trim_start-solid : (s : String) → all_characters is_solid s ≡ true → trim_start s ≡ s
unfolding trim_start
trim_start-solid [] h = refl
trim_start-solid (c ∷ s) h = ground arith

trim_cons-solid : (c : Char) (s : String) → is_solid c ≡ true → trim_cons c s ≡ (c ∷ s)
trim_cons-solid c [] h = ground arith
trim_cons-solid c (d ∷ s) h = refl

trim_end-solid : (s : String) → all_characters is_solid s ≡ true → trim_end s ≡ s
unfolding trim_end
trim_end-solid [] h = refl
trim_end-solid (c ∷ s) h =
    ap (trim_cons c) (trim_end-solid s (ground arith)) ∙ trim_cons-solid c s (ground arith)

-- The `trim` behind the removal of white space does nothing.
trim-remove_spaces : (s : String) → trim (remove_spaces s) ≡ remove_spaces s
unfolding trim
trim-remove_spaces s =
    ap trim_end (trim_start-solid (remove_spaces s) (remove_spaces-solid s))
    ∙ trim_end-solid (remove_spaces s) (remove_spaces-solid s)

-- What the gateway may be asked: no white space, and by kind six digits or six units and more.
abbrev pub IsCode : String → Bool → Type 0
IsCode text recovery =
    (all_characters is_solid text ≡ true)
    × (if recovery
        then leb 6 (utf16_length text) ≡ true
        else (utf16_length text ≡ 6) × (all_characters is_digit text ≡ true))

IsCode-ne-empty : (recovery : Bool) → ¬ IsCode "" recovery
unfolding utf16_length
IsCode-ne-empty true (solid, long) = absurd (cc long)
IsCode-ne-empty false (solid, coded) = omega (arith, coded.0)

pub IsCode-full : (text : String) (recovery : Bool) → IsCode text recovery → (text == "") ≡ false
IsCode-full text recovery coded = elim (Bool-cases (text == "")) [
  | inl empty ↦
      absurd
        (IsCode-ne-empty recovery (subst (λ s. IsCode s recovery) ((eq_iff text "").0 empty) coded))
  | inr full ↦ full
]

is_six_digits_lem :
    (s : String)
    → is_six_digits s ≡ true
    → (utf16_length s ≡ 6) × (all_characters is_digit s ≡ true)
unfolding is_six_digits utf16_length is_digit
is_six_digits_lem (a ∷ b ∷ c ∷ d ∷ e ∷ f ∷ []) h = ground arith
is_six_digits_lem _ h = cc

checked_text_lem :
    (t : String) (kind : Bool)
    → all_characters is_solid t ≡ true
    → (c : String × Bool) → checked_text t kind ≡ ok c
    → (c ≡ (t, kind)) × IsCode t kind
unfolding checked_text
checked_text_lem t true solid c e = (ground arith, (solid, ground arith))
checked_text_lem t false solid c e = (ground arith, (solid, is_six_digits_lem t (ground arith)))

checked_text-IsCode :
    (t : String) (kind : Bool)
    → all_characters is_solid t ≡ true
    → (text : String) (recovery : Bool) → checked_text t kind ≡ ok (text, recovery)
    → IsCode text recovery
checked_text-IsCode t kind solid text recovery e =
    let (same, coded) = checked_text_lem t kind solid (text, recovery) e in
    subst (λ (c : String × Bool). IsCode c.0 c.1) (sym same) coded

checked_code-IsCode :
    (body : Json) (text : String) (recovery : Bool)
    → checked_code body ≡ ok (text, recovery)
    → IsCode text recovery
unfolding checked_code
checked_code-IsCode body text recovery e =
    elim (Option-cases (full_string (field_of "code" body))) [
      | inl absent ↦ ground arith
      | inr (given, present) ↦
          checked_text-IsCode (trim (remove_spaces given)) (is_true (field_of "isRecovery" body))
            (rw (trim-remove_spaces given) (remove_spaces-solid given)) text recovery (ground arith)
    ]

module _ (mock production : Bool) (g h : String → String → Bool → Answer RawSession) where
  with_code-agree :
      (token : String) (checked : Result ApiResponse (String × Bool))
      → ((text : String) (recovery : Bool)
          → checked ≡ ok (text, recovery)
          → g token text recovery ≡ h token text recovery)
      → with_code mock production g token checked ≡ with_code mock production h token checked
  unfolding with_code
  with_code-agree token (err refusal) same = refl
  with_code-agree token (ok (text, recovery)) same = rw (same text recovery refl) refl

  -- The gateway is asked about nothing but codes without white space, of six digits, or for
  -- recovery of six units and more: gateways that agree on these give one response.
  pub mfa_verify-asks :
      (token : Option String) (request : Option Json)
      → ((t text : String) (recovery : Bool)
          → IsCode text recovery
          → g t text recovery ≡ h t text recovery)
      → mfa_verify mock production g token request ≡ mfa_verify mock production h token request
  unfolding mfa_verify
  mfa_verify-asks none request same = refl
  mfa_verify-asks (some token) request same = elim (Bool-cases (truthy token)) [
    | inr blank ↦ ground arith
    | inl full ↦ elim (Option-cases (read_json_body request)) [
      | inl absent ↦ ground arith
      | inr (body, read) ↦ ground (
        arith,
        with_code-agree token (checked_code body) (λ text recovery e.
            same token text recovery (checked_code-IsCode body text recovery e)),
      )
    ]
  ]
