-- ===== src/Proxy/Request.antt =====
-- The parts of `proxyToGateway` (src/lib/proxy/proxy_to_gateway.ts) between its awaits.
pub mod Outbound
use pact_web.Prelude.{
  ℕ, Bool, true, false, ◌&&◌, not, if◌then◌else◌, Option, none, some, chain, List, [], ◌∷◌, String,
  ◌==◌,
}
use pact_web.Prelude.Text.{truthy, or_undefined, ◌<>◌}
use pact_web.Cookies.{
  Jar, put, write, expires_text, session_cookie, refresh_token_cookie, auth_cookie_base_options,
  refresh_token_cookie_options,
}
use pact_web.Proxy.Headers.{
  Headers, get, set, remove, refresh_header, RotatedPair, Upstream, copy_headers,
}
use pact_web.Proxy.ClientIp.{inbound_client_ip, append_forwarded_for}

-- What the handler reads of a `NextRequest`; cookies with no value are `none`.
pub record Request : Type 0 where
  pub session : Option String
  pub refresh : Option String
  pub method : String
  pub headers : Headers
  pub body : String
  pub upstream_path : String
  pub search : String

-- A leader and a follower hold the promise under which they meet, by its number.
pub data Role : Type 0 where
  leader : ℕ → Role
  follower : ℕ → Role
  plain : Role

abbrev is_leader : Role → Bool
is_leader (leader p) = true
is_leader _ = false

-- The truthy session token, under which requests meet.
abbrev pub key_of : Request → Option String
key_of r = chain r.session (λ s. if truthy s then some s else none)

-- `if (value) headers.set(name, value)`, where `none` stands for every falsy value.
unfoldable pub set_opt : String → Option String → Headers → Headers
set_opt name none hs = hs
set_opt name (some v) hs = set name v hs

abbrev pub bearer : Option String → Option String
bearer none = none
bearer (some token) = some ("Bearer " <> token)

-- Only a leader presents the refresh token.
abbrev pub presented : Request → Role → Option String
presented r role = if is_leader role then or_undefined r.refresh else none

abbrev forwarded_for : Request → Headers → Option String
forwarded_for r hs =
    or_undefined (append_forwarded_for (get "x-forwarded-for" hs) (inbound_client_ip r.headers))

abbrev pub credentials : Request → Role → Headers
credentials r role = set_opt refresh_header (presented r role) (
    set_opt "authorization" (bearer (key_of r))
      (set_opt "content-type" (or_undefined (get "content-type" r.headers)) []))

-- The outbound headers, built fresh: no cookie of the browser is in them.
unfoldable pub outbound_headers : Request → Role → Headers
outbound_headers r role =
    let hs = credentials r role in set_opt "x-forwarded-for" (forwarded_for r hs) hs

-- The headers of the one retry: the rotated bearer, and no refresh token.
unfoldable pub retry_headers : RotatedPair → Headers → Headers
retry_headers pair hs =
    remove refresh_header (set "authorization" ("Bearer " <> pair.session_token) hs)

abbrev has_body : Request → Bool
has_body r = not (r.method == "GET") && not (r.method == "HEAD")

-- One call of `fetch`. A follower's body is buffered, so a retry sends it again.
pub record Sent : Type 0 where
  pub url : String
  pub method : String
  pub headers : Headers
  pub body : Option String

module _ (gateway_base_url : String) where
  unfoldable pub fetch_upstream : Request → Headers → Sent
  fetch_upstream r hs = record {
    url = gateway_base_url <> r.upstream_path <> r.search;
    method = r.method;
    headers = hs;
    body = if has_body r then some r.body else none;
  }

-- A `NextResponse` with its cookie writes.
pub record Response : Type 0 where
  pub status : ℕ
  pub headers : Headers
  pub body : String
  pub cookies : Jar

unfoldable pub to_proxy_response : Upstream → Response
unfolding copy_headers
to_proxy_response up = record {
  status = up.status;
  headers = copy_headers up.headers [];
  body = up.body;
  cookies = [];
}

-- The cookies of a rotated pair, written at the end of the handler.
unfoldable pub roll_cookies : Bool → Option RotatedPair → Response → Response
roll_cookies production none res = res
roll_cookies production (some pair) res =
    let options = auth_cookie_base_options production (expires_text pair.expires_at_unix) in
    let jar = put session_cookie (write pair.session_token options) res.cookies in
    let refresh = write pair.refresh_token (refresh_token_cookie_options production) in
    record res {
      cookies = if truthy pair.refresh_token then put refresh_token_cookie refresh jar else jar;
    }
