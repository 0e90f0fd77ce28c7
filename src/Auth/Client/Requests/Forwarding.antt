-- ===== src/Auth/Client/Requests/Forwarding.antt =====
-- The headers of the client's requests.
use pact_web.Prelude.{
  ◌≡◌, refl, sym, ◌∙◌, if◌then◌else◌, Option, none, some, chain, is_some, String, arith, inl, inr,
  Bool-cases,
}
use pact_web.Prelude.Text.{truthy, ◌<>◌, or_undefined}
use pact_web.Prelude.Json.{Fields}
use pact_web.Proxy.Headers.{Headers, get, set}
use pact_web.Proxy.Headers.Laws.{get-set}
use pact_web.Proxy.ClientIp.{inbound_client_ip, append_forwarded_for}
use pact_web.Auth.Client.Requests.{
  AuthRequestOptions, own_headers, set_forwarded, with_address, request_headers,
}

-- The authorization that a token asks for.
abbrev pub bearer_of : Option String → Option String
bearer_of token = chain (or_undefined token) λ t. some ("Bearer " <> t)

abbrev content_type_of : Option Fields → Option String
content_type_of body = if is_some body then some "application/json" else none

-- The headers that a list holds of the three.
abbrev Holds : Option String → Option String → Option String → Headers → Type 0
Holds forwarded authorization content headers =
    (get "x-forwarded-for" headers ≡ forwarded)
    × (get "authorization" headers ≡ authorization)
    × (get "content-type" headers ≡ content)

own_headers_lem :
    (token : Option String) (body : Option Fields)
    → Holds none (bearer_of token) (content_type_of body) (own_headers token body)
unfolding get set
own_headers_lem none none = (refl, refl, refl)
own_headers_lem none (some body) = (refl, refl, refl)
own_headers_lem (some t) none = elim (Bool-cases (truthy t)) [
  | inl full ↦ rw full (refl, refl, refl)
  | inr empty ↦ rw empty (refl, refl, refl)
]
own_headers_lem (some t) (some body) = elim (Bool-cases (truthy t)) [
  | inl full ↦ rw full (refl, refl, refl)
  | inr empty ↦ rw empty (refl, refl, refl)
]

set_forwarded_lem :
    (forwarded authorization content : Option String) (headers : Headers)
    → Holds none authorization content headers
    → Holds (or_undefined forwarded) authorization content (set_forwarded forwarded headers)
set_forwarded_lem none authorization content headers h = h
set_forwarded_lem (some ip) authorization content headers (hf, ha, hc) =
    elim (Bool-cases (truthy ip)) [
      | inl full ↦ rw full (
        ground (arith, get-set "x-forwarded-for" "x-forwarded-for" ip headers),
        (get-set "authorization" "x-forwarded-for" ip headers) ∙ ha,
        (get-set "content-type" "x-forwarded-for" ip headers) ∙ hc,
      )
      | inr empty ↦ rw empty (hf, ha, hc)
    ]

or_undefined-append :
    (ip : Option String) → or_undefined (append_forwarded_for none ip) ≡ or_undefined ip
unfolding append_forwarded_for
or_undefined-append none = refl
or_undefined-append (some ip) = ground arith

with_address_lem :
    (inbound : Option Headers) (authorization content : Option String) (headers : Headers)
    → Holds none authorization content headers
    → Holds
        (or_undefined (chain inbound inbound_client_ip))
        authorization
        content
        (with_address inbound headers)
with_address_lem none authorization content headers h = h
with_address_lem (some served) authorization content headers (hf, ha, hc) =
    rw (hf, sym (or_undefined-append (inbound_client_ip served)))
      (set_forwarded_lem (append_forwarded_for none (inbound_client_ip served)) authorization
        content headers (hf, ha, hc))

-- The three headers of a request: the address is the one that the served request gives, alone;
-- the bearer is the call's own, for a token that is not empty; a content type stands with a body.
pub request_headers_lem :
    (inbound : Option Headers) (opts : AuthRequestOptions)
    → (get "x-forwarded-for" (request_headers inbound opts)
        ≡ or_undefined (chain inbound inbound_client_ip))
      × (get "authorization" (request_headers inbound opts) ≡ bearer_of opts.session_token)
      × (get "content-type" (request_headers inbound opts)
          ≡ (if is_some opts.body then some "application/json" else none))
unfolding request_headers
request_headers_lem inbound opts =
    with_address_lem inbound (bearer_of opts.session_token) (content_type_of opts.body)
      (own_headers opts.session_token opts.body) (own_headers_lem opts.session_token opts.body)
