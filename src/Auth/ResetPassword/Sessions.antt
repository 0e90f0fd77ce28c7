-- ===== src/Auth/ResetPassword/Sessions.antt =====
-- What a password reset writes.
use pact_web.Prelude.{
  ◌≡◌, refl, sym, Bool, false, ◌&&◌, Bool-cases, inl, inr, Option, some, [], none-ne-some, chain,
  Option-cases, String, ◌==◌, arith, ap, ◌∙◌,
}
use pact_web.Prelude.Json.{Json}
use pact_web.Prelude.Result.{Result, ok, err}
use pact_web.Cookies.{CookieWrite, write, written, put, session_cookie, session_cookie_options}
use pact_web.Cookies.Laws.{written-nil}
use pact_web.Auth.Errors.{Code, Thrown, connect_error, other}
use pact_web.Auth.Client.{Answer, RawSession, SessionResult, session_call}
use pact_web.Auth.Client.Requests.{PublicCall}
use pact_web.Auth.Routes.{
  mapped_response, mock_mfa_reset_token, mock_mfa_required_response, read_json_body,
}
use pact_web.Auth.Login.Cookies.{login_response-cases}
use pact_web.Auth.Account.{both}
use pact_web.Auth.ResetPassword.{reset_error_response, reset_response, reset_with, reset_password}

reset_error-cookies : (thrown : Thrown) → (reset_error_response thrown).cookies ≡ []
unfolding reset_error_response mapped_response
reset_error-cookies (connect_error Code.unauthenticated m) = refl
reset_error-cookies (connect_error _ m) = refl
reset_error-cookies other = refl

reset_response-session :
    (production : Bool) (r : Result Thrown SessionResult) (w : CookieWrite)
    → written session_cookie (reset_response production r).cookies ≡ some w
    → (s : SessionResult) × (r ≡ ok s)
      × (s.mfa_required ≡ false)
      × (w ≡ write s.session_token (session_cookie_options production s.expires_at_unix))
unfolding reset_response
reset_response-session production (ok s) w e =
    let (t, same, one_factor, session, no_challenge) = login_response-cases production (ok s) w e in
    (t, same, one_factor, session)
reset_response-session production (err thrown) w e = absurd (
    none-ne-some w (
      sym (written-nil session_cookie)
      ∙ sym (ap (written session_cookie) (reset_error-cookies thrown))
      ∙ e))

module _ (mock production : Bool) (gateway : PublicCall → Answer RawSession) where
  reset_with-session :
      (token password : String) (w : CookieWrite)
      → written session_cookie (reset_with mock production gateway (token, password)).cookies
        ≡ some w
      → (s : SessionResult) × (session_call
            (gateway (PublicCall.confirm_password_reset token password))
          ≡ ok s)
        × (s.mfa_required ≡ false)
        × (w ≡ write s.session_token (session_cookie_options production s.expires_at_unix))
  unfolding reset_with mock_mfa_required_response written put
  reset_with-session token password w e =
      elim (Bool-cases (mock && (token == mock_mfa_reset_token))) [
        | inl mocked ↦ absurd (none-ne-some w (ground arith))
        | inr real ↦
            reset_response-session production
              (session_call (gateway (PublicCall.confirm_password_reset token password))) w
              (ground arith)
      ]

  -- A reset writes a session cookie only for the session that the gateway gives for the token and
  -- the new password of the request, and only where no second factor is asked for.
  pub session-reset_password :
      (request : Option Json) (w : CookieWrite)
      → written session_cookie (reset_password mock production gateway request).cookies ≡ some w
      → (token : String) × (password : String) × (s : SessionResult) × (chain
            (read_json_body request)
            (both "token" "password")
          ≡ some (token, password))
        × (session_call (gateway (PublicCall.confirm_password_reset token password)) ≡ ok s)
        × (s.mfa_required ≡ false)
        × (w ≡ write s.session_token (session_cookie_options production s.expires_at_unix))
  unfolding reset_password written
  session-reset_password request w e = elim (Option-cases (read_json_body request)) [
    | inl absent ↦ absurd (none-ne-some w (ground arith))
    | inr (body, read) ↦ elim (Option-cases (both "token" "password" body)) [
      | inl missing ↦ absurd (none-ne-some w (ground arith))
      | inr ((token, password), given) ↦
          let (s, answered, one_factor, session) =
            reset_with-session token password w (ground arith) in
          (token, password, s, rw read given, answered, one_factor, session)
    ]
  ]
