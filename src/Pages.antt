-- ===== src/Pages.antt =====
-- proxy.ts: the gate in front of every page.
pub mod Gate
pub mod Answers
pub mod Exclusion
pub mod Tests
use text.Mathlib.Text.{starts_with}
use pact_web.Prelude.{
  ℕ, Bool, true, false, ◌||◌, if◌then◌else◌, Option, none, some, List, [], ◌∷◌, String, any, chain,
}
use pact_web.Prelude.Text.{truthy, truthy_opt, or_undefined}
use pact_web.Cookies.{Jar, IssuedSession, set_session_cookies, clear_session_cookies}
use pact_web.Proxy.Headers.{Headers, get}
use pact_web.Proxy.Request.{Sent}
use pact_web.Proxy.ClientIp.{inbound_client_ip, append_forwarded_for}
use pact_web.Renewal.{FetchResult, redeem_request, redeem_once}

abbrev public_paths : List String
public_paths =
    "/login" ∷ "/register" ∷ "/verify-email" ∷ "/forgot-password" ∷ "/reset-password"
    ∷ "/v1/auth/callback" ∷ []

pub record PageRequest : Type 0 where
  pub pathname : String
  pub session : Option String
  pub refresh : Option String
  pub headers : Headers

-- The render goes on, with the session cookie that it sees, or the browser goes to /login.
pub data PageResponse : Type 0 where
  next : Option String → Jar → PageResponse
  redirect_login : Jar → PageResponse

unfoldable pub is_public : String → Bool
is_public pathname = any (λ p. starts_with pathname p) public_paths

abbrev pub forwarded : PageRequest → Option String
forwarded r = append_forwarded_for (get "x-forwarded-for" r.headers) (inbound_client_ip r.headers)

module _ (mock production : Bool) (gateway_base_url : String) where
  -- The renewal call that a page request makes, if any.
  unfoldable pub renewal_call : PageRequest → Option Sent
  renewal_call r =
      if mock || truthy_opt r.session || is_public r.pathname
      then none
      else chain (or_undefined r.refresh)
          (λ token. some (redeem_request gateway_base_url token (forwarded r)))

  -- `proxy`, where `gateway` answers the renewal call.
  unfoldable pub proxy : (Sent → FetchResult) → PageRequest → PageResponse
  proxy gateway r =
      if mock
      then next r.session []
      else if truthy_opt r.session || is_public r.pathname
      then next r.session []
      else elim (chain (renewal_call r) (λ call. redeem_once (gateway call))) [
        | none ↦ redirect_login (clear_session_cookies production [])
        | some renewed ↦
            next (some renewed.session_token) (set_session_cookies production renewed [])
      ]
