-- ===== src/Auth/Settings/UnlinkIdentity.antt =====
-- app/api/auth/oauth/unlink/route.ts, behind its session gate: the call that a request asks for, and the
-- response to the outcome of the call.
use pact_web.Prelude.{if◌then◌else◌, Option, none, some, String}
use pact_web.Prelude.Json.{Json}
use pact_web.Prelude.Result.{Result, ok, err, ◌>>=◌}
use pact_web.Auth.Errors.{Code, Thrown, connect_error}
use pact_web.Auth.Client.{Answer}
use pact_web.Auth.Client.Requests.{SessionCall}
use pact_web.Auth.Client.Replies.{RawReply, void_call}
use pact_web.Auth.Routes.{
  error, done, ApiResponse, respond, session_expired_response, field_of, text_of,
}
use pact_web.Auth.Providers.{is_allowed_provider}
use pact_web.Auth.Settings.Gate.{refuse, body_of, failed}

-- The check of the provider.
unfoldable pub unlink : Option String → Result ApiResponse SessionCall
unlink none = refuse "invalid provider" none
unlink (some provider) =
    if is_allowed_provider provider
    then ok (SessionCall.unlink_identity provider)
    else refuse "invalid provider" none

unfoldable pub prepare : Option Json → Result ApiResponse SessionCall
prepare request = do body ← body_of request; unlink (text_of (field_of "provider" body))

unfoldable pub on_error : Thrown → ApiResponse
on_error (connect_error Code.unauthenticated message) = session_expired_response
on_error (connect_error Code.not_found message) = respond 404 (error "provider not connected" none)
on_error (connect_error Code.failed_precondition message) = respond 409 (
    error "this is your only sign-in method; add a password or passkey before disconnecting"
      (some "last_sign_in_method"))
on_error thrown = failed "could not disconnect provider"

unfoldable pub response : Result Thrown (Unit {0}) → ApiResponse
response (err thrown) = on_error thrown
response (ok v) = respond 200 done

unfoldable pub answer : Answer RawReply → ApiResponse
answer reply = response (void_call reply)
