-- ===== src/Auth/MfaPasskey.antt =====
-- app/api/auth/mfa/passkey/finish/route.ts
pub mod Retry
use pact_web.Prelude.{if◌then◌else◌, Bool, true, Option, none, some, [], String}
use pact_web.Prelude.Text.{truthy}
use pact_web.Prelude.Json.{Json, obj, arr}
use pact_web.Prelude.Result.{Result, ok, err}
use pact_web.Cookies.{delete, put, mfa_token_cookie}
use pact_web.Auth.Errors.{Code, Thrown, connect_error}
use pact_web.Auth.Client.{Answer, RawSession, SessionResult, session_call}
use pact_web.Auth.Routes.{
  error, ApiResponse, respond, invalid_json_response, no_mfa_challenge_response,
  challenge_expired_response, mapped_response, read_json_body, field_of, full_string, object_of,
  is_challenge_gone_message,
}
use pact_web.Auth.MfaVerify.{step_up_response}

-- The cookie goes whatever was wrong with the assertion: the challenge is consumed.
unfoldable pub finish_mfa_passkey_error_response : Thrown → ApiResponse
finish_mfa_passkey_error_response (connect_error Code.unauthenticated message) =
    if is_challenge_gone_message message then challenge_expired_response else record {
      status = 401;
      body =
          error "Your passkey could not be verified. Enter your password again."
            (some "passkey_failed");
      cookies = put mfa_token_cookie delete [];
    }
finish_mfa_passkey_error_response thrown = mapped_response thrown

-- A refusal, or the ceremony and the assertion.
unfoldable pub checked_assertion : Json → Result ApiResponse (String × Json)
checked_assertion body = elim (full_string (field_of "ceremonyId" body)) [
  | none ↦ err (respond 400 (error "ceremonyId is required" (some "invalid_code")))
  | some ceremony ↦ elim (object_of (field_of "assertion" body)) [
    | none ↦ err (respond 400 (error "assertion is required" (some "invalid_code")))
    | some assertion ↦ ok (ceremony, assertion)
  ]
]

module _ (production : Bool) where
  unfoldable pub finish_response : Result Thrown SessionResult → ApiResponse
  finish_response (err thrown) = finish_mfa_passkey_error_response thrown
  finish_response (ok s) = step_up_response production s

  -- What is done with a checked assertion, and nothing with a refused one.
  unfoldable pub with_assertion :
      (String → String → Json → Answer RawSession)
      → String
      → Result ApiResponse (String × Json)
      → ApiResponse
  with_assertion gateway token (err refusal) = refusal
  with_assertion gateway token (ok (ceremony, assertion)) =
      finish_response (session_call (gateway token ceremony assertion))

  -- `POST`, where `gateway` answers `finishMfaPasskey` for the challenge, the ceremony and the
  -- assertion.
  unfoldable pub mfa_passkey_finish :
      (String → String → Json → Answer RawSession) → Option String → Option Json → ApiResponse
  mfa_passkey_finish gateway none request = no_mfa_challenge_response
  mfa_passkey_finish gateway (some token) request =
      if truthy token
      then elim (read_json_body request) [
        | none ↦ invalid_json_response
        | some body ↦ with_assertion gateway token (checked_assertion body)
      ]
      else no_mfa_challenge_response
