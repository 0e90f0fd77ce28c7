-- ===== src/Cookies/Laws.antt =====
-- What a jar holds after a write.
use pact_web.Prelude.{
  ◌≡◌, refl, Bool, if◌then◌else◌, none, some, [], ◌∷◌, String, ◌==◌, eq_iff, ◌&&◌, ◌||◌, arith,
}
use pact_web.Prelude.Text.{truthy}
use pact_web.Cookies.{
  Jar, CookieWrite, write, max_age, put, written, IssuedSession, set_session_cookies,
  clear_session_cookies, session_cookie, refresh_token_cookie, session_cookie_options,
  refresh_token_cookie_options, auth_cookie_base_options,
}

pub written-nil : (name : String) → written name [] ≡ none
unfolding written
written-nil name = refl

pub written-put :
    (name k : String) (w : CookieWrite) (jar : Jar)
    → written name (put k w jar) ≡ (if k == name then some w else written name jar)
unfolding written put
written-put name k w [] = refl
written-put name k w ((j, v) ∷ jar) =
    ground (arith, eq_iff j k, eq_iff j name, eq_iff k name, written-put name k w jar)

-- A session's cookies: the session always, the refresh token only where there is one.
pub set_session_cookies_lem :
    (production : Bool) (s : IssuedSession) (jar : Jar) (name : String)
    → written name (set_session_cookies production s jar) ≡ (
        if truthy s.refresh_token && (refresh_token_cookie == name)
        then some (write s.refresh_token (refresh_token_cookie_options production))
        else if session_cookie == name
        then some (write s.session_token (session_cookie_options production s.expires_at_unix))
        else written name jar)
unfolding set_session_cookies
set_session_cookies_lem production s jar name =
    let session = write s.session_token (session_cookie_options production s.expires_at_unix) in
    ground (
      arith,
      written-put name session_cookie session jar,
      written-put name refresh_token_cookie
          (write s.refresh_token (refresh_token_cookie_options production))
          (put session_cookie session jar),
    )

pub clear_session_cookies_lem :
    (production : Bool) (jar : Jar) (name : String)
    → written name (clear_session_cookies production jar) ≡ (
        if (refresh_token_cookie == name) || (session_cookie == name)
        then some (write "" (auth_cookie_base_options production (max_age 0)))
        else written name jar)
unfolding clear_session_cookies
clear_session_cookies_lem production jar name =
    let gone = write "" (auth_cookie_base_options production (max_age 0)) in
    ground (
      arith,
      written-put name session_cookie gone jar,
      written-put name refresh_token_cookie gone (put session_cookie gone jar),
    )
