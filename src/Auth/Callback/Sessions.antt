-- ===== src/Auth/Callback/Sessions.antt =====
-- The session that the OAuth callback writes.
use pact_web.Prelude.{
  ◌≡◌, refl, ◌∙◌, Bool, true, false, if◌then◌else◌, Bool-cases, inl, inr, ◌⊎◌, Option, none, some,
  none-ne-some, Always, [], String, arith,
}
use pact_web.Prelude.Text.{truthy}
use pact_web.Cookies.{
  Jar, CookieWrite, oauth_state_cookie, write, written, put, session_cookie, session_cookie_options,
}
use pact_web.Cookies.Laws.{written-nil, written-put, set_session_cookies_lem}
use pact_web.Auth.Client.{Answer, RawSession, SessionResult}
use pact_web.Auth.Client.Requests.{PublicCall}
use pact_web.Auth.Routes.{mock_session_token, mock_session_options, issued}
use pact_web.Auth.ReturnTo.{UrlApi, Inbound, Environment}
use pact_web.Auth.Callback.{
  Redirect, step_up_jar, burn_state_cookie, failed, signed_in_redirect, mock_redirect, callback,
}
use pact_web.Auth.Callback.Exits.{IsExchange, callback-Always}

burn-session :
    (secure : Bool) (jar : Jar)
    → written session_cookie (burn_state_cookie secure jar) ≡ written session_cookie jar
unfolding burn_state_cookie
burn-session secure jar = written-put session_cookie oauth_state_cookie _ jar

step_up_jar-session :
    {U : Type 0} (urls : UrlApi U) (env : Environment) (s : SessionResult) (target : U)
    → written session_cookie (step_up_jar urls env s target) ≡ none
unfolding written put
step_up_jar-session urls env s target = refl

session-signed_in_redirect :
    {U : Type 0} (urls : UrlApi U) (env : Environment) (s : SessionResult) (target : U)
    → written session_cookie (signed_in_redirect urls env s target).cookies ≡ (
        if s.mfa_required
        then none
        else some (write s.session_token (session_cookie_options env.production s.expires_at_unix)))
unfolding signed_in_redirect failed
session-signed_in_redirect urls env s target = elim (Bool-cases s.mfa_required) [
  | inl two ↦ elim (Bool-cases (truthy s.mfa_token)) [
    | inl full ↦
        rw (two, full) (burn-session env.production _ ∙ step_up_jar-session urls env s target)
    | inr empty ↦ rw (two, empty) (burn-session env.production [] ∙ written-nil session_cookie)
  ]
  | inr one ↦ rw one (
      burn-session env.production _
      ∙ set_session_cookies_lem env.production (issued s) [] session_cookie
      ∙ ground arith)
]

module _ {U : Type 0} (urls : UrlApi U) (env : Environment)
    (gateway : PublicCall → Answer RawSession) (req : Inbound) (provider : String)
    (cookie : Option String) where
  -- Where a session cookie comes from.
  abbrev IsJustified : CookieWrite → Type 0
  IsJustified w =
      ((env.mock ≡ true) × (w ≡ write mock_session_token mock_session_options))
      ⊎ ((s : SessionResult) × IsExchange gateway req provider cookie s
          × (s.mfa_required ≡ false)
          × (w ≡ write s.session_token (session_cookie_options env.production s.expires_at_unix)))

  abbrev pub Justifies : Redirect U → Type 0
  Justifies r = (w : CookieWrite) → written session_cookie r.cookies ≡ some w → IsJustified w

  failed-Justifies : (reason : String) → Justifies (failed urls env reason)
  unfolding failed burn_state_cookie written put
  failed-Justifies reason w e = absurd (none-ne-some w e)

  mock_redirect-Justifies :
      (target : U) → env.mock ≡ true → Justifies (mock_redirect urls env target)
  unfolding mock_redirect burn_state_cookie written put
  mock_redirect-Justifies target mocked w e = inl (mocked, ground arith)

  signed_in-Justifies :
      (s : SessionResult) (target : U)
      → IsExchange gateway req provider cookie s
      → Justifies (signed_in_redirect urls env s target)
  signed_in-Justifies s target exchanged w e =
      let written_lem = session-signed_in_redirect urls env s target in
      elim (Bool-cases s.mfa_required) [
        | inl two ↦ absurd (none-ne-some w (ground (arith, written_lem)))
        | inr one ↦ inr (s, exchanged, one, ground (arith, written_lem))
      ]

  -- The callback writes a session cookie only for the mock, or for the session that the gateway
  -- gave, without a second factor, for an allowed provider, the code and the state of the URL and
  -- the state cookie, none of them empty and with no error of the provider.
  pub session-callback : Always Justifies (callback urls env gateway req provider cookie)
  session-callback =
      callback-Always urls env Justifies failed-Justifies mock_redirect-Justifies gateway req
        provider cookie signed_in-Justifies
