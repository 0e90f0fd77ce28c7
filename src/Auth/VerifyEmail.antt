-- ===== src/Auth/VerifyEmail.antt =====
-- app/api/auth/verify-email/route.ts
pub mod Destination
use pact_web.Prelude.{if◌then◌else◌, Bool, Option, none, some, chain, [], String, ◌==◌}
use pact_web.Prelude.Text.{truthy, or_undefined, ◌<>◌}
use pact_web.Prelude.Result.{Result, ok, err}
use pact_web.Proxy.Headers.{get}
use pact_web.Cookies.{Jar, set_session_cookies}
use pact_web.Auth.Errors.{Code, Thrown, connect_error}
use pact_web.Auth.Client.{Answer, RawSession, SessionResult, session_call}
use pact_web.Auth.Client.Requests.{PublicCall}
use pact_web.Auth.Routes.{issued}
use pact_web.Auth.ReturnTo.{UrlApi, Inbound, Environment, request_origin, rebase_return_to}

-- A redirect to a URL.
pub record UrlRedirect (U : Type 0) : Type 0 where
  pub location : U
  pub cookies : Jar

unfoldable pub failed_reason : Thrown → String
failed_reason (connect_error Code.unauthenticated message) = "invalid_or_expired"
failed_reason thrown = "server_error"

module _ {U : Type 0} (urls : UrlApi U) (env : Environment) (req : Inbound) where
  abbrev failed_page : String → Option (UrlRedirect U)
  failed_page reason =
      chain (urls.resolve ("/verify-email/failed?reason=" <> reason) (request_origin req))
        λ page. some (record { location = page; cookies = [] })

  -- The path that the success page is given.
  unfoldable pub next_path : U → String
  next_path rebased =
      if urls.origin rebased == request_origin req
      then urls.pathname rebased <> urls.search rebased
      else "/dashboard"

  unfoldable pub success_page : SessionResult → Option (UrlRedirect U)
  success_page s =
      chain
        (rebase_return_to urls env req (if truthy s.return_to then s.return_to else "/dashboard"))
        λ rebased. chain (urls.resolve "/verify-email/success" (request_origin req)) λ page.
          some (record {
            location = urls.set_param "next" (next_path rebased) page;
            cookies = set_session_cookies env.production (issued s) [];
          })

  unfoldable pub verified_response : Result Thrown SessionResult → Option (UrlRedirect U)
  verified_response (err thrown) = failed_page (failed_reason thrown)
  verified_response (ok s) = success_page s

  unfoldable pub verify_email_with :
      (PublicCall → Answer RawSession) → Option String → Option (UrlRedirect U)
  verify_email_with gateway none = failed_page "missing_token"
  verify_email_with gateway (some token) =
      verified_response (session_call (gateway (PublicCall.verify_email token)))

  -- `GET`; `none` where a URL cannot be built, which throws.
  unfoldable pub verify_email : (PublicCall → Answer RawSession) → Option (UrlRedirect U)
  verify_email gateway = verify_email_with gateway (or_undefined (get "token" req.query))
