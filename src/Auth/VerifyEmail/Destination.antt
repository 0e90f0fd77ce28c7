-- ===== src/Auth/VerifyEmail/Destination.antt =====
-- Where a verified address leads, and what it writes.
use pact_web.Prelude.{
  ◌≡◌, refl, eq_iff, Bool-cases, inl, inr, ◌⊎◌, Option, none, some, Always, chain-Always, [],
  String, ◌==◌,
}
use pact_web.Prelude.Text.{◌<>◌, or_undefined}
use pact_web.Prelude.Result.{Result, ok, err}
use pact_web.Proxy.Headers.{get}
use pact_web.Cookies.{set_session_cookies}
use pact_web.Auth.Errors.{Thrown}
use pact_web.Auth.Client.{Answer, RawSession, SessionResult, session_call}
use pact_web.Auth.Client.Requests.{PublicCall}
use pact_web.Auth.Routes.{issued}
use pact_web.Auth.ReturnTo.{UrlApi, Inbound, Environment, request_origin, rebase_return_to}
use pact_web.Auth.VerifyEmail.{
  UrlRedirect, failed_page, failed_reason, next_path, success_page, verified_response,
  verify_email_with, verify_email,
}

module _ {U : Type 0} (urls : UrlApi U) (env : Environment) (req : Inbound)
    (gateway : PublicCall → Answer RawSession) where
  -- A page of the own origin with no cookie, or the success page with the session of the token and
  -- a path of a URL of the own origin.
  abbrev pub IsOwn : UrlRedirect U → Type 0
  IsOwn r =
      (page : U) × (((reason : String) × (urls.resolve ("/verify-email/failed?reason=" <> reason)
              (request_origin req)
            ≡ some page)
          × (r.location ≡ page)
          × (r.cookies ≡ []))
        ⊎ ((token : String) × (s : SessionResult) × (next : String) × (or_undefined
                (get "token" req.query)
              ≡ some token)
            × (session_call (gateway (PublicCall.verify_email token)) ≡ ok s)
            × (urls.resolve "/verify-email/success" (request_origin req) ≡ some page)
            × (r.location ≡ urls.set_param "next" next page)
            × (r.cookies ≡ set_session_cookies env.production (issued s) [])
            × ((next ≡ "/dashboard")
                ⊎ ((url : U) × (urls.origin url ≡ request_origin req)
                    × (next ≡ urls.pathname url <> urls.search url)))))

  failed_page-IsOwn : (reason : String) → Always IsOwn (failed_page urls env req reason)
  failed_page-IsOwn reason =
      chain-Always IsOwn
        (urls.resolve ("/verify-email/failed?reason=" <> reason) (request_origin req)) _
        λ page built. (page, inl (reason, built, refl, refl))

  next_path_lem :
      (rebased : U)
      → (next_path urls env req rebased ≡ "/dashboard")
        ⊎ ((url : U) × (urls.origin url ≡ request_origin req)
            × (next_path urls env req rebased ≡ urls.pathname url <> urls.search url))
  unfolding next_path
  next_path_lem rebased = elim (Bool-cases (urls.origin rebased == request_origin req)) [
    | inl own ↦
        inr (rebased, (eq_iff (urls.origin rebased) (request_origin req)).0 own, rw own refl)
    | inr foreign ↦ inl (rw foreign refl)
  ]

  verified_response-IsOwn :
      (token : String) (r : Result Thrown SessionResult)
      → or_undefined (get "token" req.query) ≡ some token
      → session_call (gateway (PublicCall.verify_email token)) ≡ r
      → Always IsOwn (verified_response urls env req r)
  unfolding verified_response success_page
  verified_response-IsOwn token (err thrown) given answered =
      failed_page-IsOwn (failed_reason thrown)
  verified_response-IsOwn token (ok s) given answered =
      chain-Always IsOwn (rebase_return_to urls env req _) _ λ rebased from.
        chain-Always IsOwn (urls.resolve "/verify-email/success" (request_origin req)) _
          λ page built. (
            page,
            inr (
              token,
              s,
              next_path urls env req rebased,
              given,
              answered,
              built,
              refl,
              refl,
              next_path_lem rebased,
            ),
          )

  verify_email_with-IsOwn :
      (o : Option String)
      → or_undefined (get "token" req.query) ≡ o
      → Always IsOwn (verify_email_with urls env req gateway o)
  unfolding verify_email_with
  verify_email_with-IsOwn none given = failed_page-IsOwn "missing_token"
  verify_email_with-IsOwn (some token) given =
      verified_response-IsOwn token (session_call (gateway (PublicCall.verify_email token))) given
        refl

  -- Every redirect of the verification link is built on the own origin: to the failure page, with
  -- no cookie, or to the success page, with exactly the cookies of the session that the gateway
  -- gave for the token, and with the path of a URL of the own origin or `/dashboard` as the next
  -- page.
  pub verify_email-IsOwn : Always IsOwn (verify_email urls env req gateway)
  unfolding verify_email
  verify_email-IsOwn = verify_email_with-IsOwn (or_undefined (get "token" req.query)) refl
