-- ===== src/Pages/Answers.antt =====
-- What the answer of the page gate does to the cookies.
use pact_web.Prelude.{◌≡◌, Bool, true, some, [], String, arith}
use pact_web.Prelude.Text.{truthy}
use pact_web.Cookies.{
  Jar, IssuedSession, write, max_age, written, session_cookie, refresh_token_cookie,
  session_cookie_options, refresh_token_cookie_options, auth_cookie_base_options,
  set_session_cookies,
}
use pact_web.Cookies.Laws.{set_session_cookies_lem, clear_session_cookies_lem}
use pact_web.Proxy.Request.{Sent}
use pact_web.Renewal.{FetchResult, RefreshBody, redeem_once, session_of_body}
use pact_web.Pages.{PageRequest, next, redirect_login, renewal_call, proxy}

-- A redeemed session has a refresh token.
session_of_body-refresh :
    (body : RefreshBody) (s : IssuedSession)
    → session_of_body body ≡ some s
    → truthy s.refresh_token ≡ true
unfolding session_of_body
session_of_body-refresh body s e = ground arith

redeem_once-refresh :
    (result : FetchResult) (s : IssuedSession)
    → redeem_once result ≡ some s
    → truthy s.refresh_token ≡ true
unfolding redeem_once
redeem_once-refresh FetchResult.unreachable s e = cc
redeem_once-refresh (FetchResult.responded true (some body)) s e = session_of_body-refresh body s e
redeem_once-refresh (FetchResult.responded _ _) s e = cc

module _ (mock production : Bool) (base : String) (gateway : Sent → FetchResult)
    (r : PageRequest) where
  -- A redirect to the login page empties the session cookie and the refresh cookie.
  redirect-clears :
      (jar : Jar)
      → proxy mock production base gateway r ≡ redirect_login jar
      → (written session_cookie jar
          ≡ some (write "" (auth_cookie_base_options production (max_age 0))))
        × (written refresh_token_cookie jar
            ≡ some (write "" (auth_cookie_base_options production (max_age 0))))
  unfolding proxy
  redirect-clears jar e = (
    ground (arith, clear_session_cookies_lem production [] session_cookie),
    ground (arith, clear_session_cookies_lem production [] refresh_token_cookie),
  )

  -- Where the renewal call is made and gives a session, the page is rendered with that session, and
  -- the response writes its session token and its refresh token.
  renewed_page :
      (call : Sent) (s : IssuedSession)
      → renewal_call mock production base r ≡ some call
      → redeem_once (gateway call) ≡ some s
      → (jar : Jar) × (proxy mock production base gateway r ≡ next (some s.session_token) jar)
        × (written session_cookie jar
            ≡ some (write s.session_token (session_cookie_options production s.expires_at_unix)))
        × (written refresh_token_cookie jar
            ≡ some (write s.refresh_token (refresh_token_cookie_options production)))
  unfolding proxy renewal_call
  renewed_page call s called redeemed = (
    set_session_cookies production s [],
    ground arith,
    ground (arith, set_session_cookies_lem production s [] session_cookie),
    ground (
      arith,
      set_session_cookies_lem production s [] refresh_token_cookie,
      redeem_once-refresh (gateway call) s redeemed,
    ),
  )
