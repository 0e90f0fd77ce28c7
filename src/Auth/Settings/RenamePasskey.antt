-- ===== src/Auth/Settings/RenamePasskey.antt =====
-- app/api/auth/passkey/rename/route.ts, behind its session gate: the call that a request asks for, and the
-- response to the outcome of the call.
use pact_web.Prelude.{ltb, if◌then◌else◌, Option, none, String}
use pact_web.Prelude.Text.{truthy, ◌<>◌, show}
use pact_web.Prelude.Json.{Json}
use pact_web.Prelude.Result.{Result, ok, err, ◌>>=◌}
use pact_web.Auth.Errors.{Code, Thrown, connect_error}
use pact_web.Auth.Client.{Answer}
use pact_web.Auth.Client.Requests.{SessionCall}
use pact_web.Auth.Client.Replies.{RawReply, void_call}
use pact_web.Auth.Routes.{error, done, ApiResponse, respond, session_expired_response}
use pact_web.Auth.MfaVerify.{utf16_length}
use pact_web.Auth.Settings.Gate.{refuse, body_of, required, failed, label_of, max_label}

-- The checks of the label.
unfoldable pub rename_to : String → String → Result ApiResponse SessionCall
rename_to passkey_id label =
    if truthy label
    then if ltb max_label (utf16_length label)
      then refuse ("label is too long (max " <> show max_label <> " characters)") none
      else ok (SessionCall.rename_passkey passkey_id label)
    else refuse "label is required" none

unfoldable pub prepare : Option Json → Result ApiResponse SessionCall
prepare request = do
  body ← body_of request
  passkey_id ← required "passkeyId" body
  rename_to passkey_id (label_of body)

unfoldable pub on_error : Thrown → ApiResponse
on_error (connect_error Code.unauthenticated message) = session_expired_response
on_error (connect_error Code.not_found message) = respond 404 (error "passkey not found" none)
on_error (connect_error Code.already_exists message) =
    respond 409 (error "a passkey with that name already exists" none)
on_error thrown = failed "could not rename passkey"

unfoldable pub response : Result Thrown (Unit {0}) → ApiResponse
response (err thrown) = on_error thrown
response (ok v) = respond 200 done

unfoldable pub answer : Answer RawReply → ApiResponse
answer reply = response (void_call reply)
