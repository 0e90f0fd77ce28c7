-- ===== src/Auth/MfaVerify.antt =====
-- app/api/auth/mfa/verify/route.ts
pub mod Codes
pub mod Challenge
use Prim.Native.Char.{Char, code}
use Prim.Native.String.{[], ◌∷◌}
use pact_web.Prelude.{
  ℕ, suc, ◌+◌, eqb, leb, ltb, if◌then◌else◌, Bool, true, false, ◌&&◌, Option, none, some, [],
  String, ◌==◌,
}
use pact_web.Prelude.Text.{truthy}
use pact_web.Prelude.Json.{Json, bool}
use pact_web.Prelude.Trim.{is_space, trim}
use pact_web.Prelude.Result.{Result, ok, err}
use pact_web.Cookies.{
  Jar, write, delete, put, set_session_cookies, mfa_token_cookie, oauth_return_to_cookie,
  session_cookie,
}
use pact_web.Auth.Errors.{Code, Thrown, connect_error}
use pact_web.Auth.Client.{Answer, RawSession, SessionResult, session_call}
use pact_web.Auth.Routes.{
  error, signed_in, ApiResponse, respond, invalid_json_response, no_mfa_challenge_response,
  challenge_expired_response, mapped_response, read_json_body, field_of, full_string,
  is_challenge_gone_message, mock_mfa_challenge_token, mock_session_token, mock_user_id,
  mock_session_options, issued,
}

-- `s.replace(/\s+/g, '')`
unfoldable pub remove_spaces : String → String
remove_spaces [] = []
remove_spaces (c ∷ s) = let rest = remove_spaces s in if is_space (code c) then rest else c ∷ rest

-- `length` of a string: a character outside the basic plane is two units.
unfoldable pub utf16_length : String → ℕ
utf16_length [] = 0
utf16_length (c ∷ s) = (if ltb (code c) 0x10000 then 1 else 2) + utf16_length s

unfoldable pub is_digit : Char → Bool
is_digit c = leb b'0' (code c) && leb (code c) b'9'

-- `/^\d{6}$/`
unfoldable pub is_six_digits : String → Bool
is_six_digits (a ∷ b ∷ c ∷ d ∷ e ∷ f ∷ []) =
    is_digit a && is_digit b && is_digit c && is_digit d && is_digit e && is_digit f
is_six_digits _ = false

abbrev pub is_true : Option Json → Bool
is_true (some (bool true)) = true
is_true _ = false

-- A refusal, or the code and whether it is a recovery code.
unfoldable pub checked_text : String → Bool → Result ApiResponse (String × Bool)
checked_text normalized true =
    if ltb (utf16_length normalized) 6
    then err (respond 400 (error "Recovery code looks too short." (some "invalid_code")))
    else ok (normalized, true)
checked_text normalized false =
    if is_six_digits normalized
    then ok (normalized, false)
    else err (respond 400 (error "Authenticator code must be 6 digits." (some "invalid_code")))

-- The checks of the body.
unfoldable pub checked_code : Json → Result ApiResponse (String × Bool)
checked_code body = elim (full_string (field_of "code" body)) [
  | none ↦ err (respond 400 (error "code is required" (some "invalid_code")))
  | some text ↦ checked_text (trim (remove_spaces text)) (is_true (field_of "isRecovery" body))
]

unfoldable pub verify_error_response : Thrown → ApiResponse
verify_error_response (connect_error Code.unauthenticated message) =
    if is_challenge_gone_message message
    then challenge_expired_response
    else respond 401 (error "That code didn’t match. Try again." (some "invalid_code"))
verify_error_response (connect_error Code.invalid_argument message) = respond 400 (
    error (if truthy message then message else "That code didn’t look right.")
      (some "invalid_code"))
verify_error_response (connect_error Code.resource_exhausted message) =
    respond 429
      (error "Too many attempts. Please wait a moment and try again." (some "rate_limited"))
verify_error_response (connect_error Code.failed_precondition message) = record {
  status = 400;
  body =
      error
        "We can’t verify a two-factor code for this account right now. Sign in with your passkey instead, then check your authenticator app under Sign-in methods."
        (some "mfa_unavailable");
  cookies = put mfa_token_cookie delete [];
}
verify_error_response thrown = mapped_response thrown

-- The deletions that a completed step-up adds to its cookies.
abbrev end_challenge : Jar → Jar
end_challenge jar = put oauth_return_to_cookie delete (put mfa_token_cookie delete jar)

-- The mock's completed step-up.
unfoldable pub mock_verified_response : ApiResponse
mock_verified_response = record {
  status = 200;
  body = signed_in mock_user_id;
  cookies = end_challenge (put session_cookie (write mock_session_token mock_session_options) []);
}

module _ (production : Bool) where
  -- A completed step-up, of either kind.
  unfoldable pub step_up_response : SessionResult → ApiResponse
  step_up_response s = record {
    status = 200;
    body = signed_in s.user_id;
    cookies = end_challenge (set_session_cookies production (issued s) []);
  }

  unfoldable pub verify_response : Result Thrown SessionResult → ApiResponse
  verify_response (err thrown) = verify_error_response thrown
  verify_response (ok s) = step_up_response s

module _ (mock production : Bool) where
  -- What is done with a checked code, and nothing with a refused one.
  unfoldable pub with_code :
      (String → String → Bool → Answer RawSession)
      → String
      → Result ApiResponse (String × Bool)
      → ApiResponse
  with_code gateway token (err refusal) = refusal
  with_code gateway token (ok (normalized, recovery)) =
      if mock && (token == mock_mfa_challenge_token)
      then mock_verified_response
      else verify_response production (session_call (gateway token normalized recovery))

  -- `POST`, where `gateway` answers `verifyMfa` for the challenge, the code and its kind.
  unfoldable pub mfa_verify :
      (String → String → Bool → Answer RawSession) → Option String → Option Json → ApiResponse
  mfa_verify gateway none request = no_mfa_challenge_response
  mfa_verify gateway (some token) request =
      if truthy token
      then elim (read_json_body request) [
        | none ↦ invalid_json_response
        | some body ↦ with_code gateway token (checked_code body)
      ]
      else no_mfa_challenge_response
