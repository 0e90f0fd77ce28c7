-- ===== src/Auth/ReturnTo/Tests.antt =====
-- A sign-in by a provider, and a verified address. URLs are texts here.
use pact_web.Prelude.{true, false, if◌then◌else◌, none, some, Always, [], ◌∷◌, String, ◌==◌}
use pact_web.Prelude.Text.{◌<>◌}
use pact_web.Auth.Client.{Answer, success, parsed, RawSession}
use pact_web.Auth.Client.Requests.{PublicCall}
use pact_web.Auth.ReturnTo.{UrlApi, Inbound, Environment}
use pact_web.Auth.Callback.{callback}
use pact_web.Auth.Callback.Exits.{IsBurnt, callback-IsBurnt}
use pact_web.Auth.Callback.Sessions.{Justifies, session-callback}
use pact_web.Auth.VerifyEmail.{verify_email}
use pact_web.Auth.VerifyEmail.Destination.{IsOwn, verify_email-IsOwn}
use pact_web.Auth.OauthStart.{RawStart, oauth_start}
use pact_web.Auth.OauthStart.States.{Traces, oauth_start-Traces}

abbrev texts : UrlApi String
texts = record {
  parse = λ s. if s == "/dashboard" then none else some s;
  resolve = λ s base. some (base <> s);
  pathname = λ u. u;
  search = λ u. "";
  origin = λ u. u;
  text = λ u. u;
  set_param = λ key value u. u <> "?" <> key <> "=" <> value;
}

abbrev env : Environment
env = record {
  development = false;
  production = true;
  mock = false;
  rebase = false;
  default_return_to = none;
}

abbrev req : Inbound
req = record {
  headers = ("host", "evil.example") ∷ [];
  protocol = "https:";
  next_origin = "https://app.example";
  query = ("code", "c1") ∷ ("state", "t1") ∷ ("token", "v1") ∷ ("provider", "github") ∷ [];
}

abbrev session : RawSession
session = record {
  session_token = some "s1";
  refresh_token = some "r1";
  user_id = some "u1";
  expires_at_unix = some 99;
  mfa_required = none;
  mfa_token = none;
  return_to = some "https://app.example/policies";
}

abbrev gateway : PublicCall → Answer RawSession
gateway call = success 200 (parsed session)

abbrev starting : PublicCall → Answer RawStart
starting call = success 200 (
    parsed
      (record { authorization_url = some "https://github.example/authorize"; state = some "t1" }))

callback-IsBurnt_example : Always IsBurnt (callback texts env gateway req "github" (some "t1"))
callback-IsBurnt_example = callback-IsBurnt texts env gateway req "github" (some "t1")

session-callback_example :
    Always
      (Justifies texts env gateway req "github" (some "t1"))
      (callback texts env gateway req "github" (some "t1"))
session-callback_example = session-callback texts env gateway req "github" (some "t1")

verify_email-IsOwn_example :
    Always (IsOwn texts env req gateway) (verify_email texts env req gateway)
verify_email-IsOwn_example = verify_email-IsOwn texts env req gateway

oauth_start-Traces_example :
    Traces texts env
      (some "github")
      starting
      req
      (oauth_start texts env (some "github") starting req)
oauth_start-Traces_example = oauth_start-Traces texts env (some "github") starting req
