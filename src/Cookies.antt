-- ===== src/Cookies.antt =====
-- The auth cookies: src/lib/session_cookie.ts, src/lib/cookie_options.ts and
-- src/framework/auth/pact_auth/cookies.ts. `production` says whether NODE_ENV is "production".
pub mod Laws
use pact_web.Prelude.{
  ℕ, ◌*◌, Bool, true, if◌then◌else◌, Option, none, some, List, [], ◌∷◌, String, ◌==◌,
}
use pact_web.Prelude.Text.{truthy}

abbrev pub session_cookie : String
session_cookie = "pact_session"

abbrev pub refresh_token_cookie : String
refresh_token_cookie = "pact_refresh_token"

abbrev refresh_token_cookie_max_age_seconds : ℕ
refresh_token_cookie_max_age_seconds = 7 * 24 * 60 * 60

abbrev pub mfa_token_cookie : String
mfa_token_cookie = "pact_mfa_token"

abbrev pub oauth_state_cookie : String
oauth_state_cookie = "pact_oauth_state"

abbrev pub oauth_return_to_cookie : String
oauth_return_to_cookie = "pact_oauth_return_to"

abbrev pub mfa_token_ttl_seconds : ℕ
mfa_token_ttl_seconds = 5 * 60

-- `expires` from a Unix time, or from the text of one (`Number(text) * 1000`), or `maxAge`.
pub data Lifetime : Type 0 where
  expires_unix : ℕ → Lifetime
  expires_text : String → Lifetime
  max_age : ℕ → Lifetime

-- The attributes of `authCookieBaseOptions`, and the lifetime that is added to them.
pub record CookieOptions : Type 0 where
  pub http_only : Bool
  pub same_site : String
  pub secure : Bool
  pub path : String
  pub lifetime : Lifetime

pub data CookieWrite : Type 0 where
  write : String → CookieOptions → CookieWrite
  delete : CookieWrite

-- The writes of a response, by cookie name: a later write replaces an earlier one.
abbrev pub Jar : Type 0
Jar = List (String × CookieWrite)

unfoldable pub put : String → CookieWrite → Jar → Jar
put name w [] = (name, w) ∷ []
put name w ((other, v) ∷ jar) =
    let rest = put name w jar in if other == name then (name, w) ∷ jar else (other, v) ∷ rest

unfoldable pub written : String → Jar → Option CookieWrite
written name [] = none
written name ((other, v) ∷ jar) =
    let rest = written name jar in if other == name then some v else rest

-- A session as pact-auth issues it: `Pick<AuthSessionResult, …>`.
pub record IssuedSession : Type 0 where
  pub session_token : String
  pub refresh_token : String
  pub expires_at_unix : ℕ

module _ (production : Bool) where
  abbrev pub auth_cookie_base_options : Lifetime → CookieOptions
  auth_cookie_base_options lifetime = record {
    http_only = true;
    same_site = "lax";
    secure = production;
    path = "/";
    lifetime = lifetime;
  }

  abbrev pub short_lived_cookie_options : ℕ → CookieOptions
  short_lived_cookie_options seconds = auth_cookie_base_options (max_age seconds)

  abbrev pub session_cookie_options : ℕ → CookieOptions
  session_cookie_options unix = auth_cookie_base_options (expires_unix unix)

  abbrev pub refresh_token_cookie_options : CookieOptions
  refresh_token_cookie_options =
      auth_cookie_base_options (max_age refresh_token_cookie_max_age_seconds)

  unfoldable pub set_session_cookies : IssuedSession → Jar → Jar
  set_session_cookies s jar =
      let jar' =
        put session_cookie (write s.session_token (session_cookie_options s.expires_at_unix)) jar in
      if truthy s.refresh_token
      then put refresh_token_cookie (write s.refresh_token refresh_token_cookie_options) jar'
      else jar'

  unfoldable pub clear_session_cookies : Jar → Jar
  clear_session_cookies jar =
      let gone = write "" (auth_cookie_base_options (max_age 0)) in
      put refresh_token_cookie gone (put session_cookie gone jar)
