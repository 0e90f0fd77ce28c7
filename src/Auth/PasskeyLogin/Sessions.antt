-- ===== src/Auth/PasskeyLogin/Sessions.antt =====
-- What a sign-in by passkey writes.
use pact_web.Prelude.{
  ◌≡◌, refl, sym, ap, ◌∙◌, Bool, Option, none, some, none-ne-some, [], String, arith,
}
use pact_web.Prelude.Json.{Json}
use pact_web.Prelude.Result.{Result, ok, err, Each, Each-bind}
use pact_web.Cookies.{CookieWrite, write, written, session_cookie, session_cookie_options}
use pact_web.Cookies.Laws.{written-nil, set_session_cookies_lem}
use pact_web.Auth.Errors.{Thrown}
use pact_web.Auth.Client.{Answer, RawSession, SessionResult, session_call}
use pact_web.Auth.Client.Requests.{PublicCall}
use pact_web.Auth.Routes.{ApiResponse, issued, field_of, object_of}
use pact_web.Auth.Settings.Gate.{body_of, required}
use pact_web.Auth.Settings.Labels.{IsFull}
use pact_web.Auth.Settings.Checked.{IsRefusal, body_of-IsPrepared, required-IsFull}
use pact_web.Auth.PasskeyLogin.{
  passkey_login_error_response, passkey_login_response, prepared_login, asserted, login_call,
  passkey_login_finish,
}

passkey_login_error-cookies : (thrown : Thrown) → (passkey_login_error_response thrown).cookies ≡ []
unfolding passkey_login_error_response
passkey_login_error-cookies thrown = ground arith

-- The session of a result, written.
abbrev pub Issued : Bool → Result Thrown SessionResult → CookieWrite → Type 0
Issued production r w =
    (s : SessionResult) × (r ≡ ok s)
    × (w ≡ write s.session_token (session_cookie_options production s.expires_at_unix))

abbrev pub IsAsserted : PublicCall → Type 0
IsAsserted call =
    (ceremony_id : String) × (assertion : Json) × (call
      ≡ PublicCall.finish_passkey_login ceremony_id assertion)
    × IsFull ceremony_id

asserted-IsAsserted :
    (ceremony_id : String) (assertion : Option Json)
    → IsFull ceremony_id
    → Each IsRefusal IsAsserted (asserted ceremony_id assertion)
asserted-IsAsserted ceremony_id none full = (refl, refl)
asserted-IsAsserted ceremony_id (some assertion) full = (ceremony_id, assertion, refl, full)

prepared_login-IsAsserted :
    (request : Option Json) → Each IsRefusal IsAsserted (prepared_login request)
unfolding prepared_login
prepared_login-IsAsserted request =
    Each-bind IsRefusal (λ body. Unit {0}) IsAsserted (body_of request) _
      (body_of-IsPrepared request)
      λ body done.
        Each-bind IsRefusal IsFull IsAsserted (required "ceremonyId" body) _
          (required-IsFull "ceremonyId" body)
          λ ceremony_id full.
            asserted-IsAsserted ceremony_id (object_of (field_of "assertion" body)) full

module _ (production : Bool) where
  passkey_login_response-session :
      (r : Result Thrown SessionResult) (w : CookieWrite)
      → written session_cookie (passkey_login_response production r).cookies ≡ some w
      → Issued production r w
  unfolding passkey_login_response
  passkey_login_response-session (ok s) w e =
      (s, refl, ground (arith, set_session_cookies_lem production (issued s) [] session_cookie))
  passkey_login_response-session (err thrown) w e = absurd (
      none-ne-some w (
        sym (written-nil session_cookie)
        ∙ sym (ap (written session_cookie) (passkey_login_error-cookies thrown))
        ∙ e))

  login_call-session :
      (gateway : PublicCall → Answer RawSession) (p : Result ApiResponse PublicCall)
      (w : CookieWrite)
      → Each IsRefusal IsAsserted p
      → written session_cookie (login_call production gateway p).cookies ≡ some w
      → (call : PublicCall) × (p ≡ ok call)
        × IsAsserted call
        × Issued production (session_call (gateway call)) w
  login_call-session gateway (ok call) w h e =
      (call, refl, h, passkey_login_response-session (session_call (gateway call)) w e)
  login_call-session gateway (err refusal) w (status, cookies) e = absurd (
      none-ne-some w
        (sym (written-nil session_cookie) ∙ sym (ap (written session_cookie) cookies) ∙ e))

  -- A sign-in by passkey writes a session cookie only for the session that the gateway gives for
  -- the assertion of the request, under a ceremony that has a name.
  pub session-passkey_login_finish :
      (gateway : PublicCall → Answer RawSession) (request : Option Json) (w : CookieWrite)
      → written session_cookie (passkey_login_finish production gateway request).cookies ≡ some w
      → (call : PublicCall) × (prepared_login request ≡ ok call)
        × IsAsserted call
        × Issued production (session_call (gateway call)) w
  unfolding passkey_login_finish
  session-passkey_login_finish gateway request w e =
      login_call-session gateway (prepared_login request) w (prepared_login-IsAsserted request) e
