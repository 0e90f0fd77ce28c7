-- ===== src/Auth/Routes.antt =====
-- What the routes share: src/framework/auth/pact_auth/route_helpers.ts and mock.ts, and the
-- responses that they build.
use Prim.Native.Char.{code}
use Prim.Native.String.{[], ◌∷◌}
use pact_web.Prelude.{
  ℕ, eqb, leb, ◌+◌, if◌then◌else◌, Bool, true, false, ◌&&◌, ◌||◌, Option, none, some, List, [], ◌∷◌,
  String,
}
use pact_web.Prelude.Json.{Json, obj, arr, null, str, get}
use pact_web.Cookies.{
  Jar, CookieOptions, write, delete, max_age, put, mfa_token_cookie, mfa_token_ttl_seconds,
  short_lived_cookie_options, IssuedSession,
}
use pact_web.Auth.Errors.{Thrown, code_text, map_pact_auth_error}
use pact_web.Auth.Client.{SessionResult}

-- The JSON bodies of the routes.
pub data ApiBody : Type 0 where
  -- `{error, code?}`
  error : String → Option String → ApiBody
  -- `{ok: true, userId}`
  signed_in : String → ApiBody
  -- `{ok: true, mfaRequired: true, userId}`
  mfa_required : String → ApiBody
  -- `{ok: true}`
  done : ApiBody
  -- `{factorId, secret, otpauthUrl}`
  enrollment_begun : String → String → String → ApiBody
  -- `{recoveryCodes}`
  codes_issued : List String → ApiBody
  -- `{ceremonyId, options}`
  ceremony_begun : String → Json → ApiBody
  -- `{credentialId, recoveryCodes?}`
  credential_added : String → Option (List String) → ApiBody

pub record ApiResponse : Type 0 where
  pub status : ℕ
  pub body : ApiBody
  pub cookies : Jar

abbrev pub respond : ℕ → ApiBody → ApiResponse
respond status body = record { status = status; body = body; cookies = [] }

abbrev pub invalid_json_response : ApiResponse
invalid_json_response = respond 400 (error "invalid json" none)

abbrev pub no_mfa_challenge_response : ApiResponse
no_mfa_challenge_response =
    respond 401
      (error "No sign-in in progress. Start again from the login page." (some "no_challenge"))

abbrev pub not_signed_in_response : ApiResponse
not_signed_in_response = respond 401 (error "not signed in" none)

-- The answer of a settings route to a session that the gateway refuses.
abbrev pub session_expired_response : ApiResponse
session_expired_response = respond 401 (error "session expired" none)

-- The dead challenge's cookie is deleted.
abbrev pub challenge_expired_response : ApiResponse
challenge_expired_response = record {
  status = 401;
  body =
      error "Your sign-in attempt expired. Enter your password again." (some "challenge_expired");
  cookies = put mfa_token_cookie delete [];
}

-- `mapPactAuthError` as a response.
unfoldable pub mapped_response : Thrown → ApiResponse
mapped_response thrown =
    let m = map_pact_auth_error thrown in respond m.status (error m.error (some (code_text m.code)))

-- `readJsonBody`: `none` for a body that is no JSON, and for the JSON `null`.
abbrev pub read_json_body : Option Json → Option Json
read_json_body none = none
read_json_body (some null) = none
read_json_body (some body) = some body

-- `body.key`; a value that is no object has no such key.
abbrev pub field_of : String → Json → Option Json
field_of key (obj fs) = get key fs
field_of key body = none

-- `isString(v)`
abbrev pub text_of : Option Json → Option String
text_of (some (str s)) = some s
text_of _ = none

-- `isString(v) && v`
abbrev pub full_string : Option Json → Option String
full_string (some (str [])) = none
full_string (some (str (c ∷ s))) = some (c ∷ s)
full_string _ = none

-- `typeof v === 'object'` of a truthy `v`: an object or an array.
abbrev pub object_of : Option Json → Option Json
object_of (some (obj fs)) = some (obj fs)
object_of (some (arr xs)) = some (arr xs)
object_of _ = none

-- ASCII lower case: no other letter's lower case is a letter of the words that are looked for.
abbrev lower_code : ℕ → ℕ
lower_code c = if leb b'A' c && leb c b'Z' then c + 32 else c

starts_with_lower : String → String → Bool
starts_with_lower [] s = true
starts_with_lower (c ∷ p) [] = false
starts_with_lower (c ∷ p) (d ∷ s) =
    let rest = starts_with_lower p s in if eqb (code c) (lower_code (code d)) then rest else false

-- `s.toLowerCase().includes(p)` for a lower-case `p`.
includes_lower : String → String → Bool
unfolding starts_with_lower
includes_lower p [] = starts_with_lower p []
includes_lower p (c ∷ s) = starts_with_lower p (c ∷ s) || includes_lower p s

unfoldable pub is_challenge_gone_message : String → Bool
unfolding includes_lower
is_challenge_gone_message raw = includes_lower "challenge" raw || includes_lower "expired" raw

abbrev pub mock_mfa_login_email : String
mock_mfa_login_email = "mfa-demo@pact.dev"

abbrev pub mock_mfa_reset_token : String
mock_mfa_reset_token = "mock-mfa-reset-token"

abbrev pub mock_mfa_challenge_token : String
mock_mfa_challenge_token = "mock-mfa-challenge-token"

abbrev pub mock_session_token : String
mock_session_token = "mock-session-token"

abbrev pub mock_user_id : String
mock_user_id = "8f5c4d12-1d50-4c18-8ad3-2f4f64a4f111"

unfoldable pub mock_mfa_required_response : Bool → ApiResponse
mock_mfa_required_response production = record {
  status = 200;
  body = mfa_required mock_user_id;
  cookies =
      put mfa_token_cookie
        (write mock_mfa_challenge_token
          (short_lived_cookie_options production mfa_token_ttl_seconds))
        [];
}

-- `mockSessionCookie`
abbrev pub mock_session_options : CookieOptions
mock_session_options = record {
  http_only = true;
  same_site = "lax";
  secure = false;
  path = "/";
  lifetime = max_age 31536000;
}

-- The part of a session that `setSessionCookies` takes.
abbrev pub issued : SessionResult → IssuedSession
issued s = record {
  session_token = s.session_token;
  refresh_token = s.refresh_token;
  expires_at_unix = s.expires_at_unix;
}
