-- ===== src/Auth/Settings/Gate.antt =====
-- What the settings routes share.
use pact_web.Prelude.{ℕ, Option, none, some, String}
use pact_web.Prelude.Text.{◌<>◌}
use pact_web.Prelude.Json.{Json, str}
use pact_web.Prelude.Trim.{trim}
use pact_web.Prelude.Result.{Result, ok, err}
use pact_web.Auth.Client.Replies.{CeremonyResult, parse_ceremony_options}
use pact_web.Auth.Routes.{
  error, ceremony_begun, ApiResponse, respond, invalid_json_response, read_json_body, field_of,
  full_string,
}

abbrev pub refuse {κ} : {A : Type κ} → String → Option String → Result ApiResponse A
refuse message code = err (respond 400 (error message code))

abbrev pub body_of : Option Json → Result ApiResponse Json
body_of request = elim (read_json_body request) [
  | none ↦ err invalid_json_response
  | some body ↦ ok body
]

-- `isString(body[key]) && body[key]`, or a refusal.
abbrev pub required : String → Json → Result ApiResponse String
required key body = elim (full_string (field_of key body)) [
  | none ↦ err (respond 400 (error (key <> " is required") none))
  | some text ↦ ok text
]

abbrev pub max_label : ℕ
max_label = 64

-- `isString(body.label) ? body.label.trim() : ''`
abbrev pub label_of : Json → String
label_of body = elim (field_of "label" body) [ some (str s) ↦ trim s | _ ↦ "" ]

abbrev pub failed : String → ApiResponse
failed message = respond 500 (error message none)

-- The options of a ceremony, unwrapped for the browser.
unfoldable pub ceremony_response : CeremonyResult → ApiResponse
ceremony_response c = elim (parse_ceremony_options c.options_json) [
  | none ↦ respond 502 (error "invalid passkey options" none)
  | some options ↦ respond 200 (ceremony_begun c.ceremony_id options)
]
