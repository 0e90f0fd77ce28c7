-- ===== src/Auth/Login.antt =====
-- app/api/auth/login/route.ts
pub mod Cookies
use pact_web.Prelude.{ℕ, if◌then◌else◌, Bool, ◌&&◌, Option, none, some, List, [], ◌∷◌, String, ◌==◌}
use pact_web.Prelude.Text.{truthy}
use pact_web.Prelude.Json.{Json}
use pact_web.Prelude.Result.{Result, ok, err}
use pact_web.Cookies.{
  write, put, set_session_cookies, mfa_token_cookie, mfa_token_ttl_seconds,
  short_lived_cookie_options,
}
use pact_web.Auth.Errors.{Code, Thrown, connect_error}
use pact_web.Auth.Client.{Answer, RawSession, SessionResult, session_call}
use pact_web.Auth.Routes.{
  ApiBody, error, signed_in, mfa_required, ApiResponse, respond, invalid_json_response,
  mapped_response, read_json_body, field_of, full_string, mock_mfa_login_email,
  mock_mfa_required_response, issued,
}

unfoldable pub login_error_response : Thrown → ApiResponse
login_error_response (connect_error Code.unauthenticated message) =
    respond 401 (error "Invalid email or password." (some "unauthorized"))
login_error_response (connect_error Code.failed_precondition message) = respond 403 (
    error "Please verify your email before signing in. Check your inbox for the verification link."
      (some "email_not_verified"))
login_error_response thrown = mapped_response thrown

-- The credentials that a body gives, if it gives both.
abbrev pub credentials_of : Json → Option (String × String)
credentials_of body = elim (full_string (field_of "email" body)) [
  | none ↦ none
  | some email ↦ elim (full_string (field_of "password" body)) [
    | none ↦ none
    | some password ↦ some (email, password)
  ]
]

module _ (production : Bool) where
  -- The second factor is asked for: no session yet, and the challenge in a cookie of its own.
  unfoldable pub mfa_step_up : SessionResult → ApiResponse
  mfa_step_up s =
      if truthy s.mfa_token
      then record {
        status = 200;
        body = mfa_required s.user_id;
        cookies =
            put mfa_token_cookie
              (write s.mfa_token (short_lived_cookie_options production mfa_token_ttl_seconds)) [];
      }
      else respond 502 (error "sign-in service returned an unusable response" none)

  unfoldable pub login_response : Result Thrown SessionResult → ApiResponse
  login_response (err thrown) = login_error_response thrown
  login_response (ok s) = if s.mfa_required then mfa_step_up s else record {
    status = 200;
    body = signed_in s.user_id;
    cookies = set_session_cookies production (issued s) [];
  }

module _ (mock production : Bool) where
  -- The call of the gateway, unless the mock answers.
  unfoldable pub login_with : (String → String → Answer RawSession) → String → String → ApiResponse
  login_with gateway email password =
      if mock && (email == mock_mfa_login_email)
      then mock_mfa_required_response production
      else login_response production (session_call (gateway email password))

  -- `POST`, where `gateway` answers the login call for an e-mail address and a password.
  unfoldable pub login : (String → String → Answer RawSession) → Option Json → ApiResponse
  login gateway request = elim (read_json_body request) [
    | none ↦ invalid_json_response
    | some body ↦ elim (credentials_of body) [
      | none ↦ respond 400 (error "email and password required" none)
      | some (email, password) ↦ login_with gateway email password
    ]
  ]
