-- ===== src/Auth/ResetPassword.antt =====
-- app/api/auth/reset-password/route.ts
pub mod Sessions
use pact_web.Prelude.{if◌then◌else◌, Bool, ◌&&◌, Option, none, some, String, ◌==◌}
use pact_web.Prelude.Json.{Json}
use pact_web.Prelude.Result.{Result, ok, err}
use pact_web.Auth.Errors.{Code, Thrown, connect_error}
use pact_web.Auth.Client.{Answer, RawSession, SessionResult, session_call}
use pact_web.Auth.Client.Requests.{PublicCall}
use pact_web.Auth.Routes.{
  error, ApiResponse, respond, invalid_json_response, mapped_response, read_json_body,
  mock_mfa_reset_token, mock_mfa_required_response,
}
use pact_web.Auth.Login.{login_response}
use pact_web.Auth.Account.{both}

unfoldable pub reset_error_response : Thrown → ApiResponse
reset_error_response (connect_error Code.unauthenticated message) = respond 401 (
    error "This reset link is invalid or has expired. Request a new one to continue."
      (some "unauthorized"))
reset_error_response thrown = mapped_response thrown

-- A reset that succeeded signs in as a login does.
unfoldable pub reset_response : Bool → Result Thrown SessionResult → ApiResponse
reset_response production (err thrown) = reset_error_response thrown
reset_response production (ok s) = login_response production (ok s)

module _ (mock production : Bool) (gateway : PublicCall → Answer RawSession) where
  unfoldable pub reset_with : String × String → ApiResponse
  reset_with (token, password) =
      if mock && (token == mock_mfa_reset_token)
      then mock_mfa_required_response production
      else reset_response production
          (session_call (gateway (PublicCall.confirm_password_reset token password)))

  unfoldable pub reset_password : Option Json → ApiResponse
  reset_password request = elim (read_json_body request) [
    | none ↦ invalid_json_response
    | some body ↦ elim (both "token" "password" body) [
      | none ↦ respond 400 (error "token and password required" none)
      | some given ↦ reset_with given
    ]
  ]
