-- ===== src/Auth/OauthStart.antt =====
-- app/api/auth/oauth/start/route.ts
pub mod States
use pact_web.Prelude.{
  ℕ, if◌then◌else◌, Bool, false, Option, none, some, chain, get_or_else, [], String,
}
use pact_web.Prelude.Text.{truthy, or_undefined}
use pact_web.Prelude.Result.{Result, ok, err}
use pact_web.Proxy.Headers.{get}
use pact_web.Cookies.{Jar, write, put, max_age, auth_cookie_base_options, oauth_state_cookie}
use pact_web.Auth.Errors.{Code, Thrown, connect_error}
use pact_web.Auth.Client.{Answer}
use pact_web.Auth.Client.Requests.{PublicCall}
use pact_web.Auth.Client.Replies.{read_reply}
use pact_web.Auth.Routes.{error, ApiBody, respond}
use pact_web.Auth.Providers.{is_allowed_provider, is_oauth_provider_enabled}
use pact_web.Auth.ReturnTo.{UrlApi, Inbound, Environment, default_return_to}

pub record RawStart : Type 0 where
  pub authorization_url : Option String
  pub state : Option String

-- A JSON answer with its status, or a redirect: to the login page with a reason, to the callback of
-- this program for a provider, with a page to return to, or to the text of the provider's URL.
pub data StartAnswer : Type 0 where
  refused : (status : ℕ) → ApiBody → StartAnswer
  to_login : String → StartAnswer
  to_callback : (provider return_to : String) → StartAnswer
  to_provider : String → StartAnswer

pub record Started : Type 0 where
  pub answer : StartAnswer
  pub cookies : Jar

abbrev answers : StartAnswer → Jar → Started
answers answer cookies = record { answer = answer; cookies = cookies }

abbrev refuses : ℕ → String → Started
refuses status message = answers (StartAnswer.refused status (error message none)) []

unfoldable pub start_error : Thrown → Started
start_error (connect_error Code.invalid_argument message) = refuses 400 message
start_error thrown = refuses 500 "oauth start failed"

-- The state that comes back with the callback, for ten minutes.
abbrev state_jar : Bool → String → Jar
state_jar secure state =
    put oauth_state_cookie (write state (auth_cookie_base_options secure (max_age 600))) []

-- `NextResponse.redirect` throws for a text that is no URL, and then nothing is answered; the
-- redirect leads to the text of the URL that was read.
module _ {U : Type 0} (urls : UrlApi U) where
  unfoldable pub start_response : Bool → Result Thrown RawStart → Option Started
  start_response production (err thrown) = some (start_error thrown)
  start_response production (ok raw) =
      chain (urls.parse (get_or_else raw.authorization_url "")) (λ url. some (
        answers (StartAnswer.to_provider (urls.text url))
          (state_jar production (get_or_else raw.state ""))))

  -- `enabled` is the text of PACT_AUTH_OAUTH_PROVIDERS.
  module _ (env : Environment) (enabled : Option String)
      (gateway : PublicCall → Answer RawStart) where
    unfoldable pub start_provider : Inbound → String → Option Started
    start_provider req provider =
        let return_to = get_or_else (get "return_to" req.query) (default_return_to env req) in
        if env.mock
        then some (
            answers (StartAnswer.to_callback provider return_to)
              (state_jar false "mock-state-envelope"))
        else start_response env.production
            (read_reply (gateway (PublicCall.start_login provider return_to)))

    unfoldable pub start_with : Inbound → Option String → Option Started
    start_with req none = some (refuses 400 "unknown provider")
    start_with req (some provider) =
        if is_allowed_provider provider
        then if is_oauth_provider_enabled enabled provider
          then start_provider req provider
          else some (answers (StartAnswer.to_login "unknown_provider") [])
        else some (refuses 400 "unknown provider")

    -- `GET`
    unfoldable pub oauth_start : Inbound → Option Started
    oauth_start req = start_with req (or_undefined (get "provider" req.query))
