-- ===== src/Auth/Callback/Exits.antt =====
-- The ways out of the OAuth callback: each burns the state.
use pact_web.Prelude.{
  ◌≡◌, refl, Bool, true, false, Bool-cases, inl, inr, Option, none, some, [], String, Always,
  chain-Always, if-cases, arith,
}
use pact_web.Prelude.Text.{truthy, or_undefined}
use pact_web.Prelude.Result.{Result, ok, err}
use pact_web.Proxy.Headers.{get}
use pact_web.Cookies.{Jar, write, written, max_age, auth_cookie_base_options, oauth_state_cookie}
use pact_web.Cookies.Laws.{written-put}
use pact_web.Auth.Errors.{Thrown}
use pact_web.Auth.Client.{Answer, RawSession, SessionResult, session_call}
use pact_web.Auth.Client.Requests.{PublicCall}
use pact_web.Auth.Providers.{is_allowed_provider}
use pact_web.Auth.ReturnTo.{UrlApi, Inbound, Environment, rebase_return_to}
use pact_web.Auth.Callback.{
  Redirect, burn_state_cookie, failed, failure_reason, fallback, signed_in_redirect,
  callback_response, mock_redirect, mock_callback, exchange, with_values, callback,
}

-- The request that a session is given for: an allowed provider, a code, and the state of the URL
-- and of the cookie, none of them empty.
pub record IsExchange (gateway : PublicCall → Answer RawSession) (req : Inbound) (provider : String)
    (cookie : Option String) (s : SessionResult) : Type 0 where
  pub given_code : String
  pub given_state : String
  pub signed_state : String
  pub allowed : is_allowed_provider provider ≡ true
  pub unrefused : or_undefined (get "error" req.query) ≡ none
  pub code_given : or_undefined (get "code" req.query) ≡ some given_code
  pub state_given : or_undefined (get "state" req.query) ≡ some given_state
  pub state_signed : or_undefined cookie ≡ some signed_state
  pub answered :
      session_call
        (gateway (PublicCall.handle_callback provider given_code given_state signed_state))
      ≡ ok s

module _ {U : Type 0} (urls : UrlApi U) (env : Environment) (P : Redirect U → Type 0)
    (fails : (reason : String) → P (failed urls env reason))
    (mocks : (target : U) → env.mock ≡ true → P (mock_redirect urls env target)) where
  callback_response-Always :
      (req : Inbound) (r : Result Thrown SessionResult)
      → ((s : SessionResult) (target : U) → r ≡ ok s → P (signed_in_redirect urls env s target))
      → Always P (callback_response urls env req r)
  unfolding callback_response
  callback_response-Always req (err thrown) signs = fails (failure_reason thrown)
  callback_response-Always req (ok s) signs =
      chain-Always P (rebase_return_to urls env req (fallback (some s.return_to))) _
        λ target built. signs s target refl

  exchange-Always :
      (gateway : PublicCall → Answer RawSession) (req : Inbound)
      (provider given_code given_state signed_state : String)
      → ((s : SessionResult) (target : U)
          → session_call
              (gateway (PublicCall.handle_callback provider given_code given_state signed_state))
            ≡ ok s
          → P (signed_in_redirect urls env s target))
      → Always P (exchange urls env gateway req provider given_code given_state signed_state)
  unfolding exchange mock_callback
  exchange-Always gateway req provider given_code given_state signed_state signs =
      if-cases (Always P) env.mock _ _
        (λ mocked.
          chain-Always P (rebase_return_to urls env req (fallback (get "return_to" req.query))) _
            λ target built. mocks target mocked)
        λ real. callback_response-Always req _ signs

  with_values-Always :
      (gateway : PublicCall → Answer RawSession) (req : Inbound) (provider : String)
      (refusal given_code given_state signed_state : Option String)
      → ((s : SessionResult) (target : U) (c t k : String)
          → refusal ≡ none
          → given_code ≡ some c
          → given_state ≡ some t
          → signed_state ≡ some k
          → session_call (gateway (PublicCall.handle_callback provider c t k)) ≡ ok s
          → P (signed_in_redirect urls env s target))
      → Always P
          (with_values urls env gateway req provider refusal given_code given_state signed_state)
  unfolding with_values
  with_values-Always gateway req provider (some reason) c t k signs = fails reason
  with_values-Always gateway req provider none none t k signs = fails "missing_code_or_state"
  with_values-Always gateway req provider none (some c) none k signs = fails "missing_code_or_state"
  with_values-Always gateway req provider none (some c) (some t) none signs =
      fails "missing_state_cookie"
  with_values-Always gateway req provider none (some c) (some t) (some k) signs =
      exchange-Always gateway req provider c t k
        λ s target answer. signs s target c t k refl refl refl refl answer

  -- What holds of each way out holds of the callback.
  pub callback-Always :
      (gateway : PublicCall → Answer RawSession) (req : Inbound) (provider : String)
      (cookie : Option String)
      → ((s : SessionResult) (target : U)
          → IsExchange gateway req provider cookie s
          → P (signed_in_redirect urls env s target))
      → Always P (callback urls env gateway req provider cookie)
  unfolding callback
  callback-Always gateway req provider cookie signs =
      if-cases (Always P) (is_allowed_provider provider) _ _
        (λ allowed.
          with_values-Always gateway req provider _ _ _ _ λ s target c t k e ec et ek answer.
            signs s target (record {
              given_code = c;
              given_state = t;
              signed_state = k;
              allowed = allowed;
              unrefused = e;
              code_given = ec;
              state_given = et;
              state_signed = ek;
              answered = answer;
            }))
        λ other. fails "unknown_provider"

-- The state cookie is overwritten, to expire at once.
abbrev pub IsBurnt : {U : Type 0} → Redirect U → Type 0
IsBurnt r =
    (secure : Bool) × (written oauth_state_cookie r.cookies
      ≡ some (write "" (auth_cookie_base_options secure (max_age 0))))

burn_state_cookie-burns :
    (secure : Bool) (jar : Jar)
    → written oauth_state_cookie (burn_state_cookie secure jar)
      ≡ some (write "" (auth_cookie_base_options secure (max_age 0)))
unfolding burn_state_cookie
burn_state_cookie-burns secure jar = ground (
  arith,
  written-put oauth_state_cookie oauth_state_cookie
      (write "" (auth_cookie_base_options secure (max_age 0))) jar,
)

signed_in-IsBurnt :
    {U : Type 0} (urls : UrlApi U) (env : Environment) (s : SessionResult) (target : U)
    → IsBurnt (signed_in_redirect urls env s target)
unfolding signed_in_redirect failed
signed_in-IsBurnt urls env s target = elim (Bool-cases s.mfa_required) [
  | inl two ↦ elim (Bool-cases (truthy s.mfa_token)) [
    | inl full ↦ rw (two, full) (env.production, burn_state_cookie-burns env.production _)
    | inr empty ↦ rw (two, empty) (env.production, burn_state_cookie-burns env.production [])
  ]
  | inr one ↦ rw one (env.production, burn_state_cookie-burns env.production _)
]

-- Every redirect of the callback overwrites the state cookie with an empty one that expires at
-- once.
pub callback-IsBurnt :
    {U : Type 0} (urls : UrlApi U) (env : Environment) (gateway : PublicCall → Answer RawSession)
    (req : Inbound) (provider : String) (cookie : Option String)
    → Always IsBurnt (callback urls env gateway req provider cookie)
unfolding failed mock_redirect signed_in_redirect
callback-IsBurnt urls env gateway req provider cookie =
    callback-Always urls env IsBurnt
      (λ reason. (env.production, burn_state_cookie-burns env.production []))
      (λ target mocked. (false, burn_state_cookie-burns false _)) gateway req provider cookie
      λ s target exchanged. signed_in-IsBurnt urls env s target
