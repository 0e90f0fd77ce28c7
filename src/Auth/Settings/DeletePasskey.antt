-- ===== src/Auth/Settings/DeletePasskey.antt =====
-- app/api/auth/passkey/delete/route.ts, behind its session gate: the call that a request asks for, and the
-- response to the outcome of the call.
use pact_web.Prelude.{Option, none}
use pact_web.Prelude.Json.{Json}
use pact_web.Prelude.Result.{Result, ok, err, ◌>>=◌}
use pact_web.Auth.Errors.{Code, Thrown, connect_error}
use pact_web.Auth.Client.{Answer}
use pact_web.Auth.Client.Requests.{SessionCall}
use pact_web.Auth.Client.Replies.{RawReply, void_call}
use pact_web.Auth.Routes.{error, done, ApiResponse, respond, session_expired_response}
use pact_web.Auth.Settings.Gate.{body_of, required, failed}

unfoldable pub prepare : Option Json → Result ApiResponse SessionCall
prepare request = do
  body ← body_of request
  passkey_id ← required "passkeyId" body
  ok (SessionCall.delete_passkey passkey_id)

unfoldable pub on_error : Thrown → ApiResponse
on_error (connect_error Code.unauthenticated message) = session_expired_response
on_error (connect_error Code.not_found message) = respond 404 (error "passkey not found" none)
on_error thrown = failed "could not delete passkey"

unfoldable pub response : Result Thrown (Unit {0}) → ApiResponse
response (err thrown) = on_error thrown
response (ok v) = respond 200 done

unfoldable pub answer : Answer RawReply → ApiResponse
answer reply = response (void_call reply)
