-- ===== src/Auth/PasskeyLogin.antt =====
-- app/api/auth/passkey/login/begin/route.ts and passkey/login/finish/route.ts, and
-- app/api/auth/mfa/passkey/begin/route.ts.
pub mod Sessions
use pact_web.Prelude.{if◌then◌else◌, Bool, Option, none, some, get_or_else, [], String}
use pact_web.Prelude.Text.{truthy}
use pact_web.Prelude.Json.{Json}
use pact_web.Prelude.Result.{Result, ok, err, ◌>>=◌}
use pact_web.Cookies.{set_session_cookies}
use pact_web.Auth.Errors.{Code, Thrown, connect_error}
use pact_web.Auth.Client.{Answer, RawSession, SessionResult, session_call}
use pact_web.Auth.Client.Requests.{PublicCall}
use pact_web.Auth.Client.Replies.{RawReply, read_reply, to_ceremony_result}
use pact_web.Auth.Routes.{
  error, signed_in, ApiResponse, respond, no_mfa_challenge_response, challenge_expired_response,
  mapped_response, field_of, text_of, object_of, issued,
}
use pact_web.Auth.Settings.Gate.{refuse, body_of, required, failed, ceremony_response}

unfoldable pub begin_error_response : Thrown → ApiResponse
begin_error_response (connect_error Code.resource_exhausted message) =
    respond 429 (error "too many attempts, try again later" none)
begin_error_response thrown = failed "could not start passkey sign-in"

unfoldable pub begin_response : Result Thrown RawReply → ApiResponse
begin_response (err thrown) = begin_error_response thrown
begin_response (ok raw) = ceremony_response (to_ceremony_result raw)

abbrev begin_body : (PublicCall → Answer RawReply) → Result ApiResponse Json → ApiResponse
begin_body gateway (err refusal) = refusal
begin_body gateway (ok body) =
    let email = get_or_else (text_of (field_of "email" body)) "" in
    begin_response (read_reply (gateway (PublicCall.begin_passkey_login email)))

-- `POST` of passkey/login/begin.
unfoldable pub passkey_login_begin : (PublicCall → Answer RawReply) → Option Json → ApiResponse
passkey_login_begin gateway request = begin_body gateway (body_of request)

unfoldable pub step_up_begin_error_response : Thrown → ApiResponse
step_up_begin_error_response (connect_error Code.unauthenticated message) =
    challenge_expired_response
step_up_begin_error_response thrown = mapped_response thrown

unfoldable pub step_up_begin_response : Result Thrown RawReply → ApiResponse
step_up_begin_response (err thrown) = step_up_begin_error_response thrown
step_up_begin_response (ok raw) = ceremony_response (to_ceremony_result raw)

-- `POST` of mfa/passkey/begin, for the challenge cookie.
unfoldable pub mfa_passkey_begin : (PublicCall → Answer RawReply) → Option String → ApiResponse
mfa_passkey_begin gateway none = no_mfa_challenge_response
mfa_passkey_begin gateway (some token) =
    if truthy token
    then step_up_begin_response (read_reply (gateway (PublicCall.begin_mfa_passkey token)))
    else no_mfa_challenge_response

unfoldable pub passkey_login_error_response : Thrown → ApiResponse
passkey_login_error_response (connect_error Code.unauthenticated message) =
    respond 401 (error "passkey sign-in failed" none)
passkey_login_error_response (connect_error Code.invalid_argument message) =
    respond 400 (error message none)
passkey_login_error_response (connect_error Code.resource_exhausted message) =
    respond 429 (error "too many attempts, try again later" none)
passkey_login_error_response thrown = failed "passkey sign-in failed"

-- The checks of the assertion.
abbrev asserted : String → Option Json → Result ApiResponse PublicCall
asserted ceremony_id none = refuse "assertion is required" none
asserted ceremony_id (some assertion) = ok (PublicCall.finish_passkey_login ceremony_id assertion)

unfoldable pub prepared_login : Option Json → Result ApiResponse PublicCall
prepared_login request = do
  body ← body_of request
  ceremony_id ← required "ceremonyId" body
  asserted ceremony_id (object_of (field_of "assertion" body))

module _ (production : Bool) where
  unfoldable pub passkey_login_response : Result Thrown SessionResult → ApiResponse
  passkey_login_response (err thrown) = passkey_login_error_response thrown
  passkey_login_response (ok s) = record {
    status = 200;
    body = signed_in s.user_id;
    cookies = set_session_cookies production (issued s) [];
  }

  abbrev login_call : (PublicCall → Answer RawSession) → Result ApiResponse PublicCall → ApiResponse
  login_call gateway (err refusal) = refusal
  login_call gateway (ok call) = passkey_login_response (session_call (gateway call))

  -- `POST` of passkey/login/finish.
  unfoldable pub passkey_login_finish : (PublicCall → Answer RawSession) → Option Json → ApiResponse
  passkey_login_finish gateway request = login_call gateway (prepared_login request)
