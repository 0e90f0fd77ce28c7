-- ===== src/Auth/Account.antt =====
-- app/api/auth/register/route.ts, forgot-password/route.ts and resend-verification/route.ts
use pact_web.Prelude.{if◌then◌else◌, Option, none, some, get_or_else, String}
use pact_web.Prelude.Text.{truthy}
use pact_web.Prelude.Json.{Json}
use pact_web.Prelude.Result.{Result, ok, err}
use pact_web.Auth.Errors.{Code, Thrown, connect_error}
use pact_web.Auth.Client.{Answer}
use pact_web.Auth.Client.Requests.{PublicCall}
use pact_web.Auth.Client.Replies.{void_call}
use pact_web.Auth.Routes.{
  error, done, ApiResponse, respond, invalid_json_response, mapped_response, read_json_body,
  field_of, full_string,
}

-- `pickDisplayName`
unfoldable pub pick_display_name : Json → String
pick_display_name body = elim (full_string (field_of "display_name" body)) [
  | some name ↦ name
  | none ↦ get_or_else (full_string (field_of "displayName" body)) ""
]

-- Two texts that a body must give.
abbrev pub both : String → String → Json → Option (String × String)
both first second body = elim (full_string (field_of first body)) [
  | none ↦ none
  | some a ↦ elim (full_string (field_of second body)) [ none ↦ none | some b ↦ some (a, b) ]
]

unfoldable pub register_response : Result Thrown (Unit {0}) → ApiResponse
register_response (ok v) = respond 200 done
register_response (err (connect_error Code.already_exists message)) =
    respond 409 (error "This email is already registered." (some "email_already_registered"))
register_response (err thrown) = mapped_response thrown

unfoldable pub mail_response : Result Thrown (Unit {0}) → ApiResponse
mail_response (ok v) = respond 200 done
mail_response (err thrown) = mapped_response thrown

-- `default_to` is the `defaultReturnTo` of the request.
module _ (default_to : String) (gateway : PublicCall → Answer (Unit {0})) where
  abbrev return_to_of : Json → String
  return_to_of body = get_or_else (full_string (field_of "returnTo" body)) default_to

  unfoldable pub register_with : Json → String × String → ApiResponse
  register_with body (email, password) =
      let display_name = pick_display_name body in
      if truthy display_name
      then register_response (
          void_call (gateway (PublicCall.register email password display_name (return_to_of body))))
      else respond 400 (error "display name is required" none)

  unfoldable pub register : Option Json → ApiResponse
  register request = elim (read_json_body request) [
    | none ↦ invalid_json_response
    | some body ↦ elim (both "email" "password" body) [
      | none ↦ respond 400 (error "email and password required" none)
      | some given ↦ register_with body given
    ]
  ]

  -- The two routes that have a link mailed.
  abbrev mail_link : (String → String → PublicCall) → Option Json → ApiResponse
  mail_link call request = elim (read_json_body request) [
    | none ↦ invalid_json_response
    | some body ↦ elim (full_string (field_of "email" body)) [
      | none ↦ respond 400 (error "email required" none)
      | some email ↦ mail_response (void_call (gateway (call email (return_to_of body))))
    ]
  ]

  unfoldable pub forgot_password : Option Json → ApiResponse
  forgot_password = mail_link PublicCall.request_password_reset

  unfoldable pub resend_verification : Option Json → ApiResponse
  resend_verification = mail_link PublicCall.resend_verification
