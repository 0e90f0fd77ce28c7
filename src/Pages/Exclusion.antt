-- ===== src/Pages/Exclusion.antt =====
-- The page gate's renewal and the API proxy's refresh never present a refresh token for the same
-- cookies.
use pact_web.Prelude.{ℕ, ◌≡◌, ◌≢◌, Bool, none, some, List, String, arith}
use pact_web.Proxy.Request.{Request, key_of}
use pact_web.Proxy.System.{Event}
use pact_web.Proxy.System.Effects.{reached, presents}
use pact_web.Proxy.System.Keyed.{request_of, presents-none, reached-Keyed}
use pact_web.Pages.{PageRequest, renewal_call}

renewing-keyless :
    (mock production : Bool) (base : String) (r : PageRequest) (req : Request)
    → req.session ≡ r.session
    → renewal_call mock production base r ≢ none
    → key_of req ≡ none
unfolding renewal_call
renewing-keyless mock production base r req same called = ground arith

-- Where the page gate makes a renewal call for the cookies of a page request, no proxied call with
-- the same session cookie, in any interleaving of calls and whether it is its first upstream call
-- or its retry, presents a refresh token.
pub renewal_excludes_proxy :
    (mock production : Bool) (base : String) (r : PageRequest) (events : List (ℕ × Event)) (i : ℕ)
    (req : Request)
    → request_of ((reached production events).calls i) ≡ some req
    → req.session ≡ r.session
    → renewal_call mock production base r ≢ none
    → presents base ((reached production events).calls i) ≡ none
renewal_excludes_proxy mock production base r events i req of same called =
    presents-none base _ req (reached-Keyed production events i) of
      (renewing-keyless mock production base r req same called)
