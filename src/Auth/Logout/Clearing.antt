-- ===== src/Auth/Logout/Clearing.antt =====
-- Signing out ends the session whatever the gateway says.
use pact_web.Prelude.{◌≡◌, Bool, Option, some, String, arith, []}
use pact_web.Cookies.{
  write, max_age, written, session_cookie, refresh_token_cookie, auth_cookie_base_options,
}
use pact_web.Cookies.Laws.{clear_session_cookies_lem}
use pact_web.Auth.Client.{Answer}
use pact_web.Auth.Logout.{cleared, logout}

-- Whatever session the request carries and however the gateway answers its revocation, the
-- response empties the session's cookie and the refresh token's.
pub logout-clears :
    (production : Bool) (gateway : String → Answer (Unit {0})) (session : Option String)
    → (written session_cookie (logout production gateway session).cookies
        ≡ some (write "" (auth_cookie_base_options production (max_age 0))))
      × (written refresh_token_cookie (logout production gateway session).cookies
          ≡ some (write "" (auth_cookie_base_options production (max_age 0))))
unfolding logout cleared
logout-clears production gateway session = (
  ground (arith, clear_session_cookies_lem production [] session_cookie),
  ground (arith, clear_session_cookies_lem production [] refresh_token_cookie),
)
