-- ===== src/Auth/Login/Cookies.antt =====
-- What a sign-in writes: a session, or the challenge of the second factor.
use pact_web.Prelude.{
  ◌≡◌, refl, ap, ◌∙◌, if◌then◌else◌, Bool, false, ◌&&◌, Bool-cases, inl, inr, Option, none, some,
  String, ◌==◌, arith, Option-cases, none-ne-some, sym, [], chain,
}
use pact_web.Prelude.Json.{Json}
use pact_web.Prelude.Text.{truthy}
use pact_web.Prelude.Result.{Result, ok, err}
use pact_web.Cookies.{
  CookieWrite, write, written, put, session_cookie, mfa_token_cookie, session_cookie_options,
  mfa_token_ttl_seconds, set_session_cookies, short_lived_cookie_options,
}
use pact_web.Cookies.Laws.{written-put, written-nil, set_session_cookies_lem}
use pact_web.Auth.Errors.{Code, Thrown, connect_error, other}
use pact_web.Auth.Client.{Answer, RawSession, SessionResult, session_call}
use pact_web.Auth.Routes.{
  mapped_response, issued, mock_mfa_login_email, mock_mfa_required_response, read_json_body,
}
use pact_web.Auth.Login.{
  login_error_response, credentials_of, mfa_step_up, login_response, login_with, login,
}

-- The cookie that a successful sign-in writes under a name.
abbrev cookie_of : Bool → SessionResult → String → Option CookieWrite
cookie_of production s name =
    if s.mfa_required
    then (if truthy s.mfa_token && (mfa_token_cookie == name)
        then some (write s.mfa_token (short_lived_cookie_options production mfa_token_ttl_seconds))
        else none)
    else written name (set_session_cookies production (issued s) [])

login_error-cookies : (thrown : Thrown) → (login_error_response thrown).cookies ≡ []
unfolding login_error_response mapped_response
login_error-cookies (connect_error Code.unauthenticated m) = refl
login_error-cookies (connect_error Code.failed_precondition m) = refl
login_error-cookies (connect_error _ m) = refl
login_error-cookies other = refl

module _ (production : Bool) where
  login_response-ok :
      (s : SessionResult) (name : String)
      → written name (login_response production (ok s)).cookies ≡ cookie_of production s name
  unfolding login_response mfa_step_up
  login_response-ok s name = ground (
    arith,
    written-nil name,
    written-put name mfa_token_cookie
        (write s.mfa_token (short_lived_cookie_options production mfa_token_ttl_seconds)) [],
  )

  login_response-err :
      (thrown : Thrown) (name : String)
      → written name (login_response production (err thrown)).cookies ≡ none
  unfolding login_response
  login_response-err thrown name = ap (written name) (login_error-cookies thrown) ∙ written-nil name

  -- A session that is written stands in the result, without a second factor.
  pub login_response-cases :
      (r : Result Thrown SessionResult) (w : CookieWrite)
      → written session_cookie (login_response production r).cookies ≡ some w
      → (s : SessionResult) × (r ≡ ok s)
        × (s.mfa_required ≡ false)
        × (w ≡ write s.session_token (session_cookie_options production s.expires_at_unix))
        × (written mfa_token_cookie (login_response production r).cookies ≡ none)
  login_response-cases (ok s) w e = (
    s,
    refl,
    ground (arith, login_response-ok s session_cookie),
    ground (
      arith,
      login_response-ok s session_cookie,
      set_session_cookies_lem production (issued s) [] session_cookie,
    ),
    ground (
      arith,
      login_response-ok s session_cookie,
      login_response-ok s mfa_token_cookie,
      set_session_cookies_lem production (issued s) [] mfa_token_cookie,
      written-nil mfa_token_cookie,
    ),
  )
  login_response-cases (err thrown) w e =
      absurd (none-ne-some w (sym (login_response-err thrown session_cookie) ∙ e))

module _ (mock production : Bool) (gateway : String → String → Answer RawSession) where
  with_credentials :
      (email password : String) (w : CookieWrite)
      → written session_cookie (login_with mock production gateway email password).cookies ≡ some w
      → (s : SessionResult) × (session_call (gateway email password) ≡ ok s)
        × (s.mfa_required ≡ false)
        × (w ≡ write s.session_token (session_cookie_options production s.expires_at_unix))
        × (written mfa_token_cookie (login_with mock production gateway email password).cookies
            ≡ none)
  unfolding login_with mock_mfa_required_response written put
  with_credentials email password w e =
      elim (Bool-cases (mock && (email == mock_mfa_login_email))) [
        | inl mocked ↦ absurd (none-ne-some w (ground arith))
        | inr real ↦
            rw (real, login_with)
              (login_response-cases production (session_call (gateway email password)) w
                (ground arith))
      ]

  -- A session cookie is written only for the session that the gateway gives for the credentials
  -- of the request, only where no second factor is asked for, and never with a challenge's cookie.
  pub session-login :
      (request : Option Json) (w : CookieWrite)
      → written session_cookie (login mock production gateway request).cookies ≡ some w
      → (email : String) × (password : String) × (s : SessionResult) × (chain
            (read_json_body request)
            credentials_of
          ≡ some (email, password))
        × (session_call (gateway email password) ≡ ok s)
        × (s.mfa_required ≡ false)
        × (w ≡ write s.session_token (session_cookie_options production s.expires_at_unix))
        × (written mfa_token_cookie (login mock production gateway request).cookies ≡ none)
  unfolding login written
  session-login request w e = elim (Option-cases (read_json_body request)) [
    | inl absent ↦ absurd (none-ne-some w (ground arith))
    | inr (body, read) ↦ elim (Option-cases (credentials_of body)) [
      | inl missing ↦ absurd (none-ne-some w (ground arith))
      | inr ((email, password), given) ↦
          let (s, answered, one_factor, session, no_challenge) =
            with_credentials email password w (ground arith) in
          (
            email,
            password,
            s,
            rw read given,
            answered,
            one_factor,
            session,
            rw (read, login) (rw (given, login) no_challenge),
          )
    ]
  ]
