-- ===== src/Auth/OauthStart/States.antt =====
-- The state that a sign-in by a provider starts with.
use pact_web.Prelude.{
  ◌≡◌, refl, Bool, true, inl, inr, ◌⊎◌, Option, none, some, none-ne-some, if-cases, Option-cases,
  get_or_else, [], String, arith,
}
use pact_web.Prelude.Text.{or_undefined}
use pact_web.Prelude.Result.{Result, ok, err}
use pact_web.Proxy.Headers.{get}
use pact_web.Cookies.{
  CookieWrite, write, written, put, max_age, auth_cookie_base_options, oauth_state_cookie,
}
use pact_web.Auth.Errors.{Code, Thrown, connect_error, other}
use pact_web.Auth.Client.{Answer}
use pact_web.Auth.Client.Requests.{PublicCall}
use pact_web.Auth.Client.Replies.{read_reply}
use pact_web.Auth.Providers.{is_allowed_provider, is_oauth_provider_enabled}
use pact_web.Auth.ReturnTo.{UrlApi, Inbound, Environment, default_return_to}
use pact_web.Auth.OauthStart.{
  RawStart, Started, StartAnswer, answers, start_error, start_response, start_provider, start_with,
  oauth_start,
}

start_error-cookies :
    (thrown : Thrown) → written oauth_state_cookie (start_error thrown).cookies ≡ none
unfolding start_error written
start_error-cookies (connect_error Code.invalid_argument m) = refl
start_error-cookies (connect_error _ m) = refl
start_error-cookies other = refl

module _ {U : Type 0} (urls : UrlApi U) where
  -- The state of a reply, which leads to the provider of the reply.
  abbrev IsIssued : Bool → Result Thrown RawStart → CookieWrite → Started → Type 0
  IsIssued production r w started =
      (raw : RawStart) × (r ≡ ok raw)
      × (w ≡ write (get_or_else raw.state "") (auth_cookie_base_options production (max_age 600)))
      × (url : U) × (urls.parse (get_or_else raw.authorization_url "") ≡ some url)
      × (started.answer ≡ StartAnswer.to_provider (urls.text url))

  start_response-IsIssued :
      (production : Bool) (r : Result Thrown RawStart) (started : Started) (w : CookieWrite)
      → start_response urls production r ≡ some started
      → written oauth_state_cookie started.cookies ≡ some w
      → IsIssued production r w started
  unfolding start_response put written
  start_response-IsIssued production (ok raw) started w made e =
      elim (Option-cases (urls.parse (get_or_else raw.authorization_url ""))) [
        | inl no_url ↦ absurd (ground arith)
        | inr (url, read) ↦ (raw, refl, ground arith, url, read, ground arith)
      ]
  start_response-IsIssued production (err thrown) started w made e =
      absurd (none-ne-some w (ground (arith, start_error-cookies thrown)))

  module _ (env : Environment) (enabled : Option String) (gateway : PublicCall → Answer RawStart)
      (req : Inbound) where
    -- The reply that the gateway gives for a provider.
    abbrev reply_for : String → Result Thrown RawStart
    reply_for provider = read_reply (
        gateway (
          PublicCall.start_login provider
            (get_or_else (get "return_to" req.query) (default_return_to env req))))

    -- Where a state cookie comes from.
    abbrev IsOffered : Started → CookieWrite → Type 0
    IsOffered started w =
        (provider : String) × (or_undefined (get "provider" req.query) ≡ some provider)
        × (is_allowed_provider provider ≡ true)
        × (is_oauth_provider_enabled enabled provider ≡ true)
        × ((env.mock ≡ true) ⊎ IsIssued env.production (reply_for provider) w started)

    -- Every state cookie of an answer, where there is one, comes from there.
    abbrev pub Traces : Option Started → Type 0
    Traces answered =
        (started : Started) (w : CookieWrite)
        → answered ≡ some started
        → written oauth_state_cookie started.cookies ≡ some w
        → IsOffered started w

    refused-Traces : (answer : StartAnswer) → Traces (some (answers answer []))
    unfolding written
    refused-Traces answer started w made e = absurd (none-ne-some w (ground arith))

    start_provider-Traces :
        (provider : String)
        → or_undefined (get "provider" req.query) ≡ some provider
        → is_allowed_provider provider ≡ true
        → is_oauth_provider_enabled enabled provider ≡ true
        → Traces (start_provider urls env enabled gateway req provider)
    unfolding start_provider
    start_provider-Traces provider given allowed offered =
        if-cases Traces env.mock _ _
          (λ mocked started w made e. (provider, given, allowed, offered, inl mocked))
          λ real started w made e. (
            provider,
            given,
            allowed,
            offered,
            inr (start_response-IsIssued env.production (reply_for provider) started w made e),
          )

    start_with-Traces :
        (o : Option String)
        → or_undefined (get "provider" req.query) ≡ o
        → Traces (start_with urls env enabled gateway req o)
    unfolding start_with
    start_with-Traces none given = refused-Traces _
    start_with-Traces (some provider) given =
        if-cases Traces (is_allowed_provider provider) _ _
          (λ allowed.
            if-cases Traces (is_oauth_provider_enabled enabled provider) _ _
              (λ offered. start_provider-Traces provider given allowed offered)
              λ hidden. refused-Traces _)
          λ unknown. refused-Traces _

    -- A state cookie is written only for a provider of the URL that the program knows and the
    -- deployment offers, and holds, outside of the mock, the state of the gateway's reply for that
    -- provider, to whose URL the answer leads.
    pub oauth_start-Traces : Traces (oauth_start urls env enabled gateway req)
    unfolding oauth_start
    oauth_start-Traces = start_with-Traces (or_undefined (get "provider" req.query)) refl
