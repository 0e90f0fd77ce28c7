-- ===== src/Auth/MfaVerify/Challenge.antt =====
-- What a step-up does to the session's cookies and to the challenge's.
use pact_web.Prelude.{
  ◌≡◌, refl, ap, ◌∙◌, if◌then◌else◌, Bool, true, false, ◌&&◌, ◌⊎◌, Bool-cases, inl, inr, Option,
  none, some, String, ◌==◌, arith, Option-cases, none-ne-some, sym, eq_iff, [], ◌∷◌,
}
use pact_web.Prelude.Text.{truthy}
use pact_web.Prelude.Json.{Json}
use pact_web.Prelude.Trim.{trim}
use pact_web.Prelude.Result.{Result, ok, err}
use pact_web.Cookies.{
  CookieWrite, write, delete, written, put, session_cookie, mfa_token_cookie,
  oauth_return_to_cookie, session_cookie_options, set_session_cookies,
}
use pact_web.Cookies.Laws.{written-put, written-nil, set_session_cookies_lem}
use pact_web.Auth.Errors.{Code, Thrown, connect_error, other}
use pact_web.Auth.Client.{Answer, RawSession, SessionResult, session_call}
use pact_web.Auth.Routes.{
  ApiResponse, mapped_response, is_challenge_gone_message, issued, mock_mfa_challenge_token,
  mock_session_token, mock_session_options, read_json_body, full_string, field_of,
}
use pact_web.Auth.MfaVerify.{
  verify_error_response, verify_response, step_up_response, mock_verified_response, with_code,
  mfa_verify, checked_code, checked_text, remove_spaces, is_true,
}

-- Which answers of the gateway leave nothing to retry.
abbrev pub ends_challenge : Result Thrown SessionResult → Bool
ends_challenge (ok s) = true
ends_challenge (err (connect_error Code.unauthenticated message)) =
    is_challenge_gone_message message
ends_challenge (err (connect_error Code.failed_precondition message)) = true
ends_challenge (err thrown) = false

mapped_response-cookies : (thrown : Thrown) → (mapped_response thrown).cookies ≡ []
unfolding mapped_response
mapped_response-cookies thrown = refl

verify_error-cookies :
    (thrown : Thrown)
    → (verify_error_response thrown).cookies
      ≡ (if ends_challenge (err thrown) then (mfa_token_cookie, delete) ∷ [] else [])
unfolding verify_error_response put mapped_response
verify_error-cookies (connect_error Code.unauthenticated m) = ground arith
verify_error-cookies (connect_error Code.failed_precondition m) = refl
verify_error-cookies (connect_error Code.invalid_argument m) = refl
verify_error-cookies (connect_error Code.resource_exhausted m) = refl
verify_error-cookies (connect_error _ m) = refl
verify_error-cookies other = refl

deletion :
    (b : Bool)
    → written mfa_token_cookie (if b then (mfa_token_cookie, delete) ∷ [] else [])
      ≡ (if b then some delete else none)
unfolding written
deletion true = refl
deletion false = refl

deletion-session :
    (b : Bool) → written session_cookie (if b then (mfa_token_cookie, delete) ∷ [] else []) ≡ none
unfolding written
deletion-session true = refl
deletion-session false = refl

-- After the gateway's answer, the challenge's cookie is deleted exactly where nothing is left to
-- retry with it: the step-up succeeded, the challenge is gone, or no code can be verified.
pub mfa_token-verify_response :
    (production : Bool) (answer : Result Thrown SessionResult)
    → written mfa_token_cookie (verify_response production answer).cookies
      ≡ (if ends_challenge answer then some delete else none)
unfolding verify_response step_up_response
mfa_token-verify_response production (ok s) =
    let session = set_session_cookies production (issued s) [] in
    ground (
      arith,
      written-put mfa_token_cookie mfa_token_cookie delete session,
      written-put mfa_token_cookie oauth_return_to_cookie delete
          (put mfa_token_cookie delete session),
    )
mfa_token-verify_response production (err thrown) =
    ap (written mfa_token_cookie) (verify_error-cookies thrown)
    ∙ deletion (ends_challenge (err thrown))

refused_text-cookies :
    (t : String) (kind : Bool) (r : ApiResponse) → checked_text t kind ≡ err r → r.cookies ≡ []
unfolding checked_text
refused_text-cookies t true r e = ground arith
refused_text-cookies t false r e = ground arith

refused-cookies : (body : Json) (r : ApiResponse) → checked_code body ≡ err r → r.cookies ≡ []
unfolding checked_code
refused-cookies body r e = elim (Option-cases (full_string (field_of "code" body))) [
  | inl absent ↦ ground arith
  | inr (given, present) ↦
      refused_text-cookies (trim (remove_spaces given)) (is_true (field_of "isRecovery" body)) r
        (ground arith)
]

module _ (mock production : Bool) (gateway : String → String → Bool → Answer RawSession) where
  -- Where a session cookie comes from: the mock's challenge, or the gateway's session.
  abbrev pub Verified : String → String → Bool → CookieWrite → Type 0
  Verified token code recovery w =
      ((mock ≡ true)
        × (token ≡ mock_mfa_challenge_token)
        × (w ≡ write mock_session_token mock_session_options))
      ⊎ ((s : SessionResult) × (session_call (gateway token code recovery) ≡ ok s)
          × (w ≡ write s.session_token (session_cookie_options production s.expires_at_unix)))

  step_up-session :
      (s : SessionResult)
      → written session_cookie (step_up_response production s).cookies
        ≡ some (write s.session_token (session_cookie_options production s.expires_at_unix))
  unfolding step_up_response
  step_up-session s =
      let session = set_session_cookies production (issued s) [] in
      ground (
        arith,
        set_session_cookies_lem production (issued s) [] session_cookie,
        written-put session_cookie mfa_token_cookie delete session,
        written-put session_cookie oauth_return_to_cookie delete
            (put mfa_token_cookie delete session),
      )

  verify_response-session :
      (answer : Result Thrown SessionResult) (w : CookieWrite)
      → written session_cookie (verify_response production answer).cookies ≡ some w
      → (s : SessionResult) × (answer ≡ ok s)
        × (w ≡ write s.session_token (session_cookie_options production s.expires_at_unix))
  unfolding verify_response
  verify_response-session (ok s) w e = (s, refl, ground (arith, step_up-session s))
  verify_response-session (err thrown) w e = absurd (
      none-ne-some w (
        sym (
          ap (written session_cookie) (verify_error-cookies thrown)
          ∙ deletion-session (ends_challenge (err thrown)))
        ∙ e))

  mock-session :
      written session_cookie mock_verified_response.cookies
      ≡ some (write mock_session_token mock_session_options)
  unfolding mock_verified_response put written
  mock-session = refl

  with_code-session :
      (token : String) (checked : Result ApiResponse (String × Bool)) (w : CookieWrite)
      → ((r : ApiResponse) → checked ≡ err r → r.cookies ≡ [])
      → written session_cookie (with_code mock production gateway token checked).cookies ≡ some w
      → (code : String) × (recovery : Bool) × (checked ≡ ok (code, recovery))
        × Verified token code recovery w
  unfolding with_code
  with_code-session token (err refusal) w clean e = absurd (
      none-ne-some w
        (sym (ap (written session_cookie) (clean refusal refl) ∙ written-nil session_cookie) ∙ e))
  with_code-session token (ok (code, recovery)) w clean e = (
    code,
    recovery,
    refl,
    elim (Bool-cases (mock && (token == mock_mfa_challenge_token))) [
      | inl mocked ↦ inl (
        ground arith,
        ground (arith, eq_iff token mock_mfa_challenge_token),
        ground (arith, mock-session),
      )
      | inr real ↦
          inr
            (verify_response-session (session_call (gateway token code recovery)) w (ground arith))
    ],
  )

  -- A session cookie is written for a checked code only, and then for the challenge that the
  -- request carries: it is the mock's, or the session that the gateway returned for both.
  pub session-mfa_verify :
      (token : Option String) (request : Option Json) (w : CookieWrite)
      → written session_cookie (mfa_verify mock production gateway token request).cookies ≡ some w
      → (t : String) × (body : Json) × (code : String) × (recovery : Bool) × (token ≡ some t)
        × (read_json_body request ≡ some body)
        × (checked_code body ≡ ok (code, recovery))
        × Verified t code recovery w
  unfolding mfa_verify written
  session-mfa_verify none request w e = absurd (none-ne-some w e)
  session-mfa_verify (some t) request w e = elim (Bool-cases (truthy t)) [
    | inr blank ↦ absurd (none-ne-some w (ground arith))
    | inl full ↦ elim (Option-cases (read_json_body request)) [
      | inl absent ↦ absurd (none-ne-some w (ground arith))
      | inr (body, read) ↦
          let (code, recovery, checked, from) =
            with_code-session t (checked_code body) w (refused-cookies body) (ground arith) in
          (t, body, code, recovery, refl, read, checked, from)
    ]
  ]
