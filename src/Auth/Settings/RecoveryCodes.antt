-- ===== src/Auth/Settings/RecoveryCodes.antt =====
-- app/api/auth/mfa/recovery-codes/route.ts, behind its session gate: the call that a request asks for, and the
-- response to the outcome of the call.
use pact_web.Prelude.{none}
use pact_web.Prelude.Result.{Result, ok, err}
use pact_web.Auth.Errors.{Code, Thrown, connect_error}
use pact_web.Auth.Client.{Answer}
use pact_web.Auth.Client.Replies.{RawReply, read_reply, recovery_codes_result}
use pact_web.Auth.Routes.{error, codes_issued, ApiResponse, respond, session_expired_response}
use pact_web.Auth.Settings.Gate.{failed}

unfoldable pub on_error : Thrown → ApiResponse
on_error (connect_error Code.unauthenticated message) = session_expired_response
on_error (connect_error Code.failed_precondition message) =
    respond 409 (error "enroll a TOTP factor before generating recovery codes" none)
on_error thrown = failed "could not regenerate recovery codes"

unfoldable pub response : Result Thrown RawReply → ApiResponse
response (err thrown) = on_error thrown
response (ok raw) = respond 200 (codes_issued (recovery_codes_result raw))

unfoldable pub answer : Answer RawReply → ApiResponse
answer reply = response (read_reply reply)
