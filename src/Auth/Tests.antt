-- ===== src/Auth/Tests.antt =====
-- A sign-in with a second factor, and answers of the gateway.
use pact_web.Prelude.{◌≡◌, refl, Bool, true, false, if◌then◌else◌, none, some, chain, String, ◌==◌}
use pact_web.Prelude.Json.{Json, obj, str, end, field}
use pact_web.Prelude.Result.{Result, ok, err}
use pact_web.Prelude.Trim.{trim, trim_start, trim_end, is_space}
use pact_web.Cookies.{
  CookieWrite, written, write, delete, max_age, session_cookie, refresh_token_cookie,
  mfa_token_cookie, session_cookie_options, auth_cookie_base_options, put, set_session_cookies,
}
use pact_web.Auth.Errors.{Code, Thrown, connect_error}
use pact_web.Auth.Client.{
  Body, parsed, Answer, success, unreachable, RawSession, SessionResult, session_call, auth_request,
  to_session_result, thrown_by,
}
use pact_web.Auth.Client.ErrorMessages.{IsCode, IsMessage, thrown_by_lem}
use pact_web.Auth.Routes.{read_json_body}
use pact_web.Auth.Login.{login, login_with, login_response, credentials_of}
use pact_web.Auth.Login.Cookies.{session-login}
use pact_web.Auth.Account.{both}
use pact_web.Auth.ResetPassword.{reset_password, reset_with, reset_response}
use pact_web.Auth.ResetPassword.Sessions.{session-reset_password}
use pact_web.Auth.Client.Requests.{PublicCall}
use pact_web.Auth.PasskeyLogin.{passkey_login_finish, passkey_login_response, prepared_login}
use pact_web.Auth.PasskeyLogin.Sessions.{IsAsserted, Issued, session-passkey_login_finish}
use pact_web.Auth.MfaVerify.{
  mfa_verify, checked_code, verify_response, checked_text, with_code, step_up_response,
  remove_spaces, is_six_digits, is_digit,
}
use pact_web.Auth.MfaVerify.Codes.{IsCode-full, mfa_verify-asks}
use pact_web.Auth.MfaVerify.Challenge.{
  Verified, session-mfa_verify, mfa_token-verify_response, ends_challenge,
}
use pact_web.Auth.Logout.{logout}
use pact_web.Auth.Logout.Clearing.{logout-clears}

abbrev session : RawSession
session = record {
  session_token = some "s1";
  refresh_token = some "r1";
  user_id = some "u1";
  expires_at_unix = some 99;
  mfa_required = none;
  mfa_token = none;
  return_to = none;
}

abbrev signed_in : Answer RawSession
signed_in = success 200 (parsed session)

abbrev session_write : CookieWrite
session_write = write "s1" (session_cookie_options true 99)

abbrev credentials : Json
credentials = obj (field "email" (str "a@b.c") (field "password" (str "pw") end))

session-login_example :
    (email : String) × (password : String) × (s : SessionResult) × (chain
        (read_json_body (some credentials))
        credentials_of
      ≡ some (email, password))
    × (session_call signed_in ≡ ok s)
    × (s.mfa_required ≡ false)
    × (session_write ≡ write s.session_token (session_cookie_options true s.expires_at_unix))
    × (written mfa_token_cookie
          (login false true (λ email password. signed_in) (some credentials)).cookies
        ≡ none)
unfolding login login_with login_response session_call auth_request to_session_result
    set_session_cookies put written
session-login_example =
    session-login false true (λ email password. signed_in) (some credentials) session_write refl

abbrev code_body : Json
code_body = obj (field "code" (str "123 456") end)

abbrev step_up : String → String → Bool → Answer RawSession
step_up token code recovery = signed_in

session-mfa_verify_example :
    (t : String) × (body : Json) × (code : String) × (recovery : Bool) × (some "m0" ≡ some t)
    × (read_json_body (some code_body) ≡ some body)
    × (checked_code body ≡ ok (code, recovery))
    × Verified false true step_up t code recovery session_write
unfolding mfa_verify checked_code checked_text with_code verify_response step_up_response
    session_call auth_request to_session_result set_session_cookies put written remove_spaces
    is_six_digits is_digit is_space trim trim_start trim_end
session-mfa_verify_example =
    session-mfa_verify false true step_up (some "m0") (some code_body) session_write refl

-- It differs about a code that is empty, which is never asked about.
abbrev silent_on_empty : String → String → Bool → Answer RawSession
silent_on_empty token code recovery = if code == "" then unreachable else signed_in

mfa_verify-asks_example :
    mfa_verify false true step_up (some "m0") (some code_body)
    ≡ mfa_verify false true silent_on_empty (some "m0") (some code_body)
mfa_verify-asks_example =
    mfa_verify-asks false true step_up silent_on_empty (some "m0") (some code_body)
      (λ t text recovery coded. rw (IsCode-full text recovery coded) refl)

abbrev wrong_code : Result Thrown SessionResult
wrong_code = err (connect_error Code.unauthenticated "invalid MFA code")

mfa_token-verify_response_example :
    written mfa_token_cookie (verify_response true wrong_code).cookies
    ≡ (if ends_challenge wrong_code then some delete else none)
mfa_token-verify_response_example = mfa_token-verify_response true wrong_code

logout-clears_example :
    (written session_cookie (logout true (λ token. unreachable) (some "s0")).cookies
      ≡ some (write "" (auth_cookie_base_options true (max_age 0))))
    × (written refresh_token_cookie (logout true (λ token. unreachable) (some "s0")).cookies
        ≡ some (write "" (auth_cookie_base_options true (max_age 0))))
logout-clears_example = logout-clears true (λ token. unreachable) (some "s0")

abbrev rejection : Body Json
rejection = parsed (obj (field "error" (str "no such user") (field "code" (str "not_found") end)))

thrown_by_lem_example :
    (code : Code) × (message : String) × (thrown_by 500 rejection ≡ connect_error code message)
    × IsCode 500 rejection code
    × IsMessage 500 rejection message
thrown_by_lem_example = thrown_by_lem 500 rejection

abbrev any_call : PublicCall → Answer RawSession
any_call call = signed_in

abbrev reset_body : Json
reset_body = obj (field "token" (str "t") (field "password" (str "pw") end))

session-reset_password_example :
    (token : String) × (password : String) × (s : SessionResult) × (chain
        (read_json_body (some reset_body))
        (both "token" "password")
      ≡ some (token, password))
    × (session_call (any_call (PublicCall.confirm_password_reset token password)) ≡ ok s)
    × (s.mfa_required ≡ false)
    × (session_write ≡ write s.session_token (session_cookie_options true s.expires_at_unix))
unfolding reset_password reset_with reset_response login_response session_call auth_request
    to_session_result set_session_cookies put written
session-reset_password_example =
    session-reset_password false true any_call (some reset_body) session_write refl

abbrev assertion_body : Json
assertion_body = obj (field "ceremonyId" (str "c1") (field "assertion" (obj end) end))

session-passkey_login_finish_example :
    (call : PublicCall) × (prepared_login (some assertion_body) ≡ ok call)
    × IsAsserted call
    × Issued true (session_call (any_call call)) session_write
unfolding passkey_login_finish passkey_login_response prepared_login session_call auth_request
    to_session_result set_session_cookies put written
session-passkey_login_finish_example =
    session-passkey_login_finish true any_call (some assertion_body) session_write refl
