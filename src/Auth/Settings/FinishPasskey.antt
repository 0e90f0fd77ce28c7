-- ===== src/Auth/Settings/FinishPasskey.antt =====
-- app/api/auth/passkey/register/finish/route.ts, behind its session gate: the call that a request asks for, and the
-- response to the outcome of the call.
use pact_web.Prelude.{Option, none, some, String}
use pact_web.Prelude.Json.{Json}
use pact_web.Prelude.Result.{Result, ok, err, ◌>>=◌}
use pact_web.Auth.Errors.{Code, Thrown, connect_error}
use pact_web.Auth.Client.{Answer}
use pact_web.Auth.Client.Requests.{SessionCall}
use pact_web.Auth.Client.Replies.{RawReply, read_reply, registration_result}
use pact_web.Auth.Routes.{
  error, credential_added, ApiResponse, respond, session_expired_response, field_of, object_of,
}
use pact_web.Auth.Settings.Gate.{refuse, body_of, required, failed}

-- The check of the attestation.
unfoldable pub finish_with : String → Option Json → Result ApiResponse SessionCall
finish_with ceremony_id none = refuse "attestation is required" none
finish_with ceremony_id (some attestation) =
    ok (SessionCall.finish_passkey_registration ceremony_id attestation)

unfoldable pub prepare : Option Json → Result ApiResponse SessionCall
prepare request = do
  body ← body_of request
  ceremony_id ← required "ceremonyId" body
  finish_with ceremony_id (object_of (field_of "attestation" body))

unfoldable pub on_error : Thrown → ApiResponse
on_error (connect_error Code.unauthenticated message) = session_expired_response
on_error (connect_error Code.invalid_argument message) = respond 400 (error message none)
on_error (connect_error Code.already_exists message) =
    respond 409 (error "this passkey is already registered" none)
on_error thrown = failed "could not finish passkey enrollment"

unfoldable pub response : Result Thrown RawReply → ApiResponse
response (err thrown) = on_error thrown
response (ok raw) =
    let r = registration_result raw in
    respond 200 (credential_added r.credential_id r.recovery_codes)

unfoldable pub answer : Answer RawReply → ApiResponse
answer reply = response (read_reply reply)
