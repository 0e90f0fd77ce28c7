-- ===== src/Proxy/ClientIp.antt =====
-- src/lib/proxy/client_ip.ts: the end user's address, read from and appended to X-Forwarded-For.
pub mod Hops
pub mod Append
use Prim.Native.Char.{Char, code}
use Prim.Native.String.{[], ◌∷◌}
use pact_web.Prelude.{
  ℕ, eqb, if◌then◌else◌, String, Option, none, some, List, [], ◌∷◌, or_else, map, keep,
}
use pact_web.Prelude.Text.{truthy, ◌<>◌}
use pact_web.Prelude.Trim.{trim}
use pact_web.Proxy.Headers.{Headers, get}

abbrev extend : Char → List String → List String
extend c [] = (c ∷ []) ∷ []
extend c (s ∷ ss) = (c ∷ s) ∷ ss

-- `s.split(',')`
unfoldable pub split_comma : String → List String
split_comma [] = [] ∷ []
split_comma (c ∷ s) =
    let rest = split_comma s in if eqb (code c) b',' then [] ∷ rest else extend c rest

-- `hops.at(-1)`
abbrev pub last : List String → Option String
last [] = none
last (s ∷ ss) = or_else (last ss) (some s)

abbrev pub hops_of : String → List String
hops_of xff = keep truthy (map trim (split_comma xff))

abbrev pub rightmost_hop : Option String → Option String
rightmost_hop none = none
rightmost_hop (some xff) = if truthy xff then last (hops_of xff) else none

-- A hop is never empty here, so a hop that was found is returned.
unfoldable pub inbound_client_ip : Headers → Option String
unfolding split_comma
inbound_client_ip headers =
    or_else (rightmost_hop (get "x-forwarded-for" headers)) (get "x-real-ip" headers)

-- An absent `existing` is `none`, for `null` and `undefined`.
unfoldable pub append_forwarded_for : Option String → Option String → Option String
append_forwarded_for existing none = existing
append_forwarded_for existing (some ip) =
    if truthy ip
    then some (elim existing [ none ↦ ip | some e ↦ if truthy e then e <> ", " <> ip else ip ])
    else existing
