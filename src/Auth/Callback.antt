-- ===== src/Auth/Callback.antt =====
-- app/v1/auth/callback/[provider]/route.ts
pub mod Exits
pub mod Sessions
use pact_web.Prelude.{if◌then◌else◌, Bool, false, Option, none, some, chain, [], String}
use pact_web.Prelude.Text.{truthy, truthy_opt, or_undefined}
use pact_web.Prelude.Result.{Result, ok, err}
use pact_web.Proxy.Headers.{get}
use pact_web.Cookies.{
  Jar, CookieOptions, write, put, max_age, auth_cookie_base_options, set_session_cookies,
  short_lived_cookie_options, session_cookie, mfa_token_cookie, mfa_token_ttl_seconds,
  oauth_state_cookie, oauth_return_to_cookie,
}
use pact_web.Auth.Errors.{Code, Thrown, connect_error}
use pact_web.Auth.Client.{Answer, RawSession, SessionResult, session_call}
use pact_web.Auth.Client.Requests.{PublicCall}
use pact_web.Auth.Routes.{mock_session_token, mock_session_options, issued}
use pact_web.Auth.Providers.{is_allowed_provider}
use pact_web.Auth.ReturnTo.{UrlApi, Inbound, Environment, rebase_return_to}

-- Where a redirect leads: to the login page with a reason, to its second step, or back.
pub data Location (U : Type 0) : Type 0 where
  login_page : String → Location U
  step_up_page : Location U
  back_to : U → Location U

pub record Redirect (U : Type 0) : Type 0 where
  pub location : Location U
  pub cookies : Jar

abbrev redirects : {U : Type 0} → Location U → Jar → Redirect U
redirects location cookies = record { location = location; cookies = cookies }

-- `burnStateCookie`
unfoldable pub burn_state_cookie : Bool → Jar → Jar
burn_state_cookie production jar =
    put oauth_state_cookie (write "" (auth_cookie_base_options production (max_age 0))) jar

-- The reason that is shown for a failed call.
unfoldable pub failure_reason : Thrown → String
failure_reason (connect_error Code.unauthenticated message) = "state_or_code_invalid"
failure_reason (connect_error Code.already_exists message) = "email_already_linked"
failure_reason (connect_error Code.deadline_exceeded message) = "provider_timeout"
failure_reason (connect_error Code.unavailable message) = "provider_timeout"
failure_reason thrown = "callback_failed"

abbrev fallback : Option String → String
fallback return_to = elim (or_undefined return_to) [ none ↦ "/dashboard" | some text ↦ text ]

module _ {U : Type 0} (urls : UrlApi U) (env : Environment) where
  unfoldable pub failed : String → Redirect U
  failed reason = redirects (Location.login_page reason) (burn_state_cookie env.production [])

  abbrev step_up_jar : SessionResult → U → Jar
  step_up_jar s target =
      let options = short_lived_cookie_options env.production mfa_token_ttl_seconds in
      put oauth_return_to_cookie (write (urls.text target) options)
        (put mfa_token_cookie (write s.mfa_token options) [])

  -- What a session is answered with, for the URL to return to.
  unfoldable pub signed_in_redirect : SessionResult → U → Redirect U
  signed_in_redirect s target =
      if s.mfa_required
      then if truthy s.mfa_token
        then redirects Location.step_up_page
            (burn_state_cookie env.production (step_up_jar s target))
        else failed "mfa_token_missing"
      else redirects (Location.back_to target)
          (burn_state_cookie env.production (set_session_cookies env.production (issued s) []))

  -- Building the URL to return to may throw: `none`, and the route answers nothing of its own.
  unfoldable pub callback_response : Inbound → Result Thrown SessionResult → Option (Redirect U)
  callback_response req (err thrown) = some (failed (failure_reason thrown))
  callback_response req (ok s) =
      chain (rebase_return_to urls env req (fallback (some s.return_to)))
        λ target. some (signed_in_redirect s target)

  -- The mock's sign-in: the session of the mock, and the state burnt without `secure`.
  unfoldable pub mock_redirect : U → Redirect U
  mock_redirect target = redirects (Location.back_to target) (
      burn_state_cookie false
        (put session_cookie (write mock_session_token mock_session_options) []))

  unfoldable pub mock_callback : Inbound → Option (Redirect U)
  mock_callback req =
      chain (rebase_return_to urls env req (fallback (get "return_to" req.query)))
        λ target. some (mock_redirect target)

  -- The exchange of a code, with the state of the URL and that of the cookie.
  unfoldable pub exchange :
      (PublicCall → Answer RawSession)
      → Inbound
      → String
      → String
      → String
      → String
      → Option (Redirect U)
  exchange gateway req provider code state signed_state =
      if env.mock
      then mock_callback req
      else callback_response req
          (session_call (gateway (PublicCall.handle_callback provider code state signed_state)))

  -- What the URL and the cookie give: an error of the provider, the code, the state, and the
  -- signed state, each where it is not empty.
  unfoldable pub with_values :
      (PublicCall → Answer RawSession)
      → Inbound
      → (provider : String) → (refusal given_code given_state signed_state : Option String)
      → Option (Redirect U)
  with_values gateway req provider (some reason) c s k = some (failed reason)
  with_values gateway req provider none none s k = some (failed "missing_code_or_state")
  with_values gateway req provider none (some c) none k = some (failed "missing_code_or_state")
  with_values gateway req provider none (some c) (some s) none =
      some (failed "missing_state_cookie")
  with_values gateway req provider none (some c) (some s) (some k) =
      exchange gateway req provider c s k

  -- `GET`, for the provider of the path and the state cookie.
  unfoldable pub callback :
      (PublicCall → Answer RawSession) → Inbound → String → Option String → Option (Redirect U)
  callback gateway req provider cookie =
      if is_allowed_provider provider
      then with_values gateway req provider (or_undefined (get "error" req.query))
          (or_undefined (get "code" req.query)) (or_undefined (get "state" req.query))
          (or_undefined cookie)
      else some (failed "unknown_provider")
