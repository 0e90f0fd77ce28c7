-- ===== src/Auth/Client/Tests.antt =====
-- Calls of the client.
use pact_web.Prelude.{◌≡◌, if◌then◌else◌, Option, none, some, is_some, chain, [], ◌∷◌}
use pact_web.Prelude.Text.{or_undefined}
use pact_web.Proxy.Headers.{Headers, get}
use pact_web.Proxy.ClientIp.{inbound_client_ip}
use pact_web.Auth.Client.Requests.{
  PublicCall, SessionCall, AuthCall, options_of, target, request_headers,
}
use pact_web.Auth.Client.Requests.Paths.{IsWithin, nameless, path-options_of}
use pact_web.Auth.Client.Requests.Secrets.{redacted, target-redacted}
use pact_web.Auth.Client.Requests.Forwarding.{bearer_of, request_headers_lem}

-- A passkey whose id looks like a path with a query.
abbrev delete_call : AuthCall
delete_call = AuthCall.session "s1" (SessionCall.delete_passkey "a/b?c#d")

path-options_of_example :
    IsWithin (options_of delete_call).path (options_of (nameless delete_call)).path
path-options_of_example = path-options_of delete_call

abbrev sign_in_call : AuthCall
sign_in_call = AuthCall.public (PublicCall.login "a@b.c" "pw")

target-redacted_example :
    target (options_of sign_in_call) ≡ target (options_of (redacted sign_in_call))
target-redacted_example = target-redacted sign_in_call

abbrev served : Option Headers
served = some (("x-forwarded-for", "10.0.0.1, 203.0.113.9") ∷ [])

request_headers_lem_example :
    (get "x-forwarded-for" (request_headers served (options_of delete_call))
      ≡ or_undefined (chain served inbound_client_ip))
    × (get "authorization" (request_headers served (options_of delete_call))
        ≡ bearer_of (options_of delete_call).session_token)
    × (get "content-type" (request_headers served (options_of delete_call))
        ≡ (if is_some (options_of delete_call).body then some "application/json" else none))
request_headers_lem_example = request_headers_lem served (options_of delete_call)
