-- ===== src/Auth/Client/ErrorMessages.antt =====
-- Which upstream text reaches a message, and which code wins.
use mathlib.Core.Option.{some-injective}
use pact_web.Prelude.{
  ℕ, ◌≡◌, ◌≢◌, refl, ap, sym, ◌∙◌, subst, none-ne-some, ◌⊎◌, inl, inr, Bool-cases, Option, none,
  some, chain, get_or_else, String, Option-cases, arith, eq_iff,
}
use pact_web.Prelude.Text.{truthy, ◌<>◌, show}
use pact_web.Prelude.Json.{Json, obj, str, Fields, get}
use pact_web.Auth.Errors.{Code, connect_error}
use pact_web.Auth.Client.{
  Body, parsed, http_status_to_code, gateway_body_code_to_code, parse_gateway_error_body,
  string_field, string_value, thrown_by, unexpected_upstream_response,
}

-- The body is an object that has a text in a field.
abbrev pub Says : String → Body Json → String → Type 0
Says key body s = (fs : Fields) × (body ≡ parsed (obj fs)) × (get key fs ≡ some (str s))

-- The message is the body's own error, which is a text and not empty, and otherwise names the
-- status.
abbrev pub IsMessage : ℕ → Body Json → String → Type 0
IsMessage status body message =
    (Says "error" body message × (message ≢ ""))
    ⊎ (((m : String) → Says "error" body m → m ≡ "")
        × (message ≡ "pact-gateway returned HTTP " <> show status))

-- The code is that of the body's slug, whatever the status, and otherwise that of the status.
abbrev pub IsCode : ℕ → Body Json → Code → Type 0
IsCode status body code =
    ((slug : String) × Says "code" body slug × (gateway_body_code_to_code slug ≡ some code))
    ⊎ (((slug : String) → Says "code" body slug → gateway_body_code_to_code slug ≡ none)
        × (code ≡ http_status_to_code status))

string_value-str : (o : Option Json) (s : String) → string_value o ≡ some s → o ≡ some (str s)
string_value-str (some (str t)) s e = cc e
string_value-str _ s e = absurd (none-ne-some s e)

said :
    (key : String) (body : Body Json) (s : String)
    → string_field key (parse_gateway_error_body body) ≡ some s
    → Says key body s
unfolding parse_gateway_error_body
said key (parsed (obj fs)) s e = (fs, refl, string_value-str (get key fs) s e)
said key _ s e = absurd (none-ne-some s e)

says :
    (key : String) (body : Body Json) (s : String)
    → Says key body s
    → string_field key (parse_gateway_error_body body) ≡ some s
unfolding parse_gateway_error_body
says key body s (fs, is_object, has) = rw is_object (ap string_value has)

abbrev code_of : ℕ → Body Json → Code
code_of status body =
    get_or_else
      (chain (string_field "code" (parse_gateway_error_body body)) gateway_body_code_to_code)
      (http_status_to_code status)

code_of-IsCode : (status : ℕ) (body : Body Json) → IsCode status body (code_of status body)
code_of-IsCode status body =
    elim (Option-cases (string_field "code" (parse_gateway_error_body body))) [
      | inl absent ↦ inr (
        (λ slug s. absurd (none-ne-some slug (sym absent ∙ says "code" body slug s))),
        rw absent refl,
      )
      | inr (slug, given) ↦ elim (Option-cases (gateway_body_code_to_code slug)) [
        | inl unknown ↦ inr (
          (λ t s.
              subst (λ q. gateway_body_code_to_code q ≡ none)
                (some-injective slug t (sym given ∙ says "code" body t s)) unknown),
          rw given (rw unknown refl),
        )
        | inr (code, known) ↦
            inl (slug, said "code" body slug given, known ∙ rw given (rw known refl))
      ]
    ]

-- An error response throws a `ConnectError`. Its code is that of the body's slug where the body is
-- an object with a slug that the program knows, and else that of the status; its message is the
-- body's error where that is a text and not empty, and else names the status.
pub thrown_by_lem :
    (status : ℕ) (body : Body Json)
    → (code : Code) × (message : String) × (thrown_by status body ≡ connect_error code message)
      × IsCode status body code
      × IsMessage status body message
unfolding thrown_by unexpected_upstream_response
thrown_by_lem status body =
    elim (Option-cases (string_field "error" (parse_gateway_error_body body))) [
      | inl absent ↦ (
        code_of status body,
        _,
        rw (absent, thrown_by) refl,
        code_of-IsCode status body,
        inr ((λ m s. ground (arith, says "error" body m s)), refl),
      )
      | inr (m, given) ↦ elim (Bool-cases (truthy m)) [
        | inl full ↦ (
          code_of status body,
          m,
          rw (given, thrown_by) (rw full refl),
          code_of-IsCode status body,
          inl (said "error" body m given, λ z. ground (arith, eq_iff m "")),
        )
        | inr blank ↦ (
          code_of status body,
          _,
          rw (given, thrown_by) (rw blank refl),
          code_of-IsCode status body,
          inr ((λ n s. ground (arith, says "error" body n s, eq_iff m "")), refl),
        )
      ]
    ]
