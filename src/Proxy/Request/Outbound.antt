-- ===== src/Proxy/Request/Outbound.antt =====
-- What the headers of an upstream call hold.
use pact_web.Prelude.{
  ◌≡◌, refl, if◌then◌else◌, Option, none, some, [], String, ◌==◌, arith, or_else,
}
use pact_web.Prelude.Text.{◌<>◌}
use pact_web.Proxy.Headers.{Headers, get, refresh_header, RotatedPair}
use pact_web.Proxy.Headers.Laws.{get-set, get-remove}
use pact_web.Proxy.Request.{
  Request, Role, key_of, set_opt, bearer, presented, outbound_headers, retry_headers,
}

get-set_opt :
    (name k : String) (v : Option String) (hs : Headers)
    → get name (set_opt k v hs) ≡ (if k == name then or_else v (get name hs) else get name hs)
unfolding set_opt
get-set_opt name k none hs = ground arith
get-set_opt name k (some v) hs = get-set name k v hs

get-nil : (name : String) → get name [] ≡ none
unfolding get
get-nil name = refl

or_else-none : (v : Option String) → or_else v none ≡ v
or_else-none none = refl
or_else-none (some v) = refl

ruleset outbound_laws = (get-set_opt, get-nil, or_else-none)

-- The refresh token of an upstream call is that of a leader.
pub refresh-outbound_headers :
    (r : Request) (role : Role) → get refresh_header (outbound_headers r role) ≡ presented r role
unfolding outbound_headers
refresh-outbound_headers r role = simp outbound_laws

-- The authorization of an upstream call is the bearer of the browser's session, where it has one.
authorization-outbound_headers :
    (r : Request) (role : Role) → get "authorization" (outbound_headers r role) ≡ bearer (key_of r)
unfolding outbound_headers
authorization-outbound_headers r role = simp outbound_laws

-- The retry differs from the first call in these two headers only.
pub get-retry_headers :
    (pair : RotatedPair) (name : String) (hs : Headers)
    → get name (retry_headers pair hs) ≡ (
        if refresh_header == name
        then none
        else if "authorization" == name
        then some ("Bearer " <> pair.session_token)
        else get name hs)
unfolding retry_headers
get-retry_headers pair name hs = simp (get-remove, get-set)
