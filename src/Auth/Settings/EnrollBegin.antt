-- ===== src/Auth/Settings/EnrollBegin.antt =====
-- app/api/auth/mfa/enroll/begin/route.ts, behind its session gate: the call that a request asks for, and the
-- response to the outcome of the call.
use pact_web.Prelude.{some}
use pact_web.Prelude.Result.{Result, ok, err}
use pact_web.Auth.Errors.{Code, Thrown, connect_error}
use pact_web.Auth.Client.{Answer}
use pact_web.Auth.Client.Replies.{RawReply, read_reply, enrollment_result}
use pact_web.Auth.Routes.{error, enrollment_begun, ApiResponse, respond, session_expired_response}
use pact_web.Auth.Settings.Gate.{failed}

unfoldable pub on_error : Thrown → ApiResponse
on_error (connect_error Code.unauthenticated message) = session_expired_response
on_error (connect_error Code.resource_exhausted message) =
    respond 429 (error "too many attempts, try again later" (some "rate_limited"))
on_error (connect_error Code.failed_precondition message) =
    respond 409 (error "already enrolled" (some "already_enrolled"))
on_error thrown = failed "could not start TOTP enrollment"

unfoldable pub response : Result Thrown RawReply → ApiResponse
response (err thrown) = on_error thrown
response (ok raw) =
    let e = enrollment_result raw in
    respond 200 (enrollment_begun e.factor_id e.secret e.otpauth_url)

unfoldable pub answer : Answer RawReply → ApiResponse
answer reply = response (read_reply reply)
