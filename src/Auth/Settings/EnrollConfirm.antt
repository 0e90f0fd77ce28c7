-- ===== src/Auth/Settings/EnrollConfirm.antt =====
-- app/api/auth/mfa/enroll/confirm/route.ts, behind its session gate: the call that a request asks for, and the
-- response to the outcome of the call.
use pact_web.Prelude.{if◌then◌else◌, Option, none, some, String}
use pact_web.Prelude.Json.{Json}
use pact_web.Prelude.Result.{Result, ok, err, ◌>>=◌}
use pact_web.Auth.Errors.{Code, Thrown, connect_error}
use pact_web.Auth.Client.{Answer}
use pact_web.Auth.Client.Requests.{SessionCall}
use pact_web.Auth.Client.Replies.{RawReply, read_reply, recovery_codes_result}
use pact_web.Auth.Routes.{
  error, codes_issued, ApiResponse, respond, session_expired_response, field_of, full_string,
}
use pact_web.Auth.MfaVerify.{is_six_digits}
use pact_web.Auth.Settings.Gate.{refuse, body_of, required, failed}

-- The check of the code, which is neither trimmed nor freed of spaces.
unfoldable pub confirm_with : String → Option String → Result ApiResponse SessionCall
confirm_with factor_id none = refuse "code must be 6 digits" (some "invalid_code")
confirm_with factor_id (some text) =
    if is_six_digits text
    then ok (SessionCall.confirm_totp_enrollment factor_id text)
    else refuse "code must be 6 digits" (some "invalid_code")

unfoldable pub prepare : Option Json → Result ApiResponse SessionCall
prepare request = do
  body ← body_of request
  factor_id ← required "factorId" body
  confirm_with factor_id (full_string (field_of "code" body))

unfoldable pub on_error : Thrown → ApiResponse
on_error (connect_error Code.unauthenticated message) = session_expired_response
on_error (connect_error Code.invalid_argument message) =
    respond 400 (error "invalid code" (some "invalid_code"))
on_error (connect_error Code.not_found message) =
    respond 404 (error "enrollment not found" (some "not_found"))
on_error (connect_error Code.resource_exhausted message) =
    respond 429 (error "too many attempts, try again later" (some "rate_limited"))
on_error thrown = failed "could not confirm enrollment"

unfoldable pub response : Result Thrown RawReply → ApiResponse
response (err thrown) = on_error thrown
response (ok raw) = respond 200 (codes_issued (recovery_codes_result raw))

unfoldable pub answer : Answer RawReply → ApiResponse
answer reply = response (read_reply reply)
