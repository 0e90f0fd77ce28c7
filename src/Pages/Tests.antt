-- ===== src/Pages/Tests.antt =====
-- A page whose session has run out, and the claims about it.
use pact_web.Prelude.{
  ◌≡◌, ◌≢◌, ◌⊎◌, ◌↔◌, List, ◌∷◌, String, ℕ, refl, sym, true, false, none, some, none-ne-some, [],
}
use pact_web.Cookies.{IssuedSession}
use pact_web.Proxy.Request.{Request, Sent}
use pact_web.Proxy.System.{Event, arrive, begin, initial, run, step}
use pact_web.Proxy.System.Effects.{reached, presents}
use pact_web.Renewal.{FetchResult, responded}
use pact_web.Pages.{PageRequest, is_public, renewal_call, proxy}
use pact_web.Pages.Gate.{is_next, IsOpen, Renews, is_next-proxy}
use pact_web.Pages.Exclusion.{renewal_excludes_proxy}

abbrev lapsed : PageRequest
lapsed = record { pathname = "/audit"; session = none; refresh = some "r0"; headers = [] }

abbrev renewed : FetchResult
renewed = responded true (
    some
      (record { session_token = some "s1"; refresh_token = some "r1"; expires_at_unix = some 99 }))

abbrev renewed_session : IssuedSession
renewed_session = record { session_token = "s1"; refresh_token = "r1"; expires_at_unix = 99 }

abbrev gateway : Sent → FetchResult
gateway call = renewed

abbrev base : String
base = "http://gateway"

is_next-proxy_example : (is_next (proxy false true base gateway lapsed) ≡ true) ↔ (
    (false ≡ true)
    ⊎ (((s : String) × (lapsed.session ≡ some s) × (s ≢ ""))
        ⊎ (IsOpen lapsed.pathname ⊎ Renews false true base gateway lapsed lapsed.refresh)))
is_next-proxy_example = is_next-proxy false true base gateway lapsed

abbrev proxied : Request
proxied = record {
  session = none;
  refresh = some "r0";
  method = "GET";
  headers = [];
  body = "";
  upstream_path = "/v1/audit/events";
  search = "";
}

abbrev arrived : List (ℕ × Event)
arrived = (0, arrive proxied) ∷ []

renewal_excludes_proxy_example : presents base ((reached true arrived).calls 0) ≡ none
unfolding renewal_call is_public run initial step begin
renewal_excludes_proxy_example =
    renewal_excludes_proxy false true base lapsed arrived 0 proxied refl refl
      (λ e. none-ne-some _ (sym e))
