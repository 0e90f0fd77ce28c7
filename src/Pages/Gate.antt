-- ===== src/Pages/Gate.antt =====
-- Who passes the gate.
use text.Mathlib.Text.{starts_with}
use pact_web.Prelude.{
  ℕ, ◌↔◌, ◌⊎◌, inl, inr, Option-cases, Option, eq_iff, refl, sym, subst, ◌≡◌, ◌≢◌, Bool, true,
  false, ◌||◌, none, some, is_some, none-ne-some, chain, String, arith,
}
use pact_web.Prelude.Text.{truthy_opt, or_undefined}
use pact_web.Cookies.{IssuedSession}
use pact_web.Proxy.Request.{Sent}
use pact_web.Renewal.{FetchResult, RefreshBody, redeem_once, redeem_request, session_of_body}
use pact_web.Pages.{
  PageRequest, PageResponse, next, redirect_login, is_public, renewal_call, proxy, forwarded,
}

abbrev pub is_next : PageResponse → Bool
is_next (next session jar) = true
is_next (redirect_login jar) = false

-- A body that gives a session, with its three fields full.
abbrev pub IsComplete : RefreshBody → Type 0
IsComplete body =
    (session : String) × (refresh : String) × (expires : ℕ) × (body.session_token ≡ some session)
    × (body.refresh_token ≡ some refresh)
    × (body.expires_at_unix ≡ some expires)
    × (session ≢ "")
    × (refresh ≢ "")
    × (expires ≢ 0)

session_of_body-IsComplete :
    (body : RefreshBody) → (is_some (session_of_body body) ≡ true) ↔ IsComplete body
unfolding session_of_body
session_of_body-IsComplete body =
    (complete, λ (s, t, n, es, et, en, fs, ft, fn). ground (arith, eq_iff s "", eq_iff t ""))
  where
    complete : is_some (session_of_body body) ≡ true → IsComplete body
    complete = elim (Option-cases body.session_token) [
      | inl none1 ↦ λ e. ground arith
      | inr (s, es) ↦ elim (Option-cases body.refresh_token) [
        | inl none2 ↦ λ e. ground arith
        | inr (t, et) ↦ elim (Option-cases body.expires_at_unix) [
          | inl none3 ↦ λ e. ground arith
          | inr (n, en) ↦ λ e. (
            s,
            t,
            n,
            es,
            et,
            en,
            (λ z. ground (arith, eq_iff s "")),
            (λ z. ground (arith, eq_iff t "")),
            (λ z. ground arith),
          )
        ]
      ]
    ]

redeem_once-IsComplete :
    (result : FetchResult)
    → (is_some (redeem_once result) ≡ true)
      ↔ ((body : RefreshBody) × (result ≡ FetchResult.responded true (some body)) × IsComplete body)
unfolding redeem_once
redeem_once-IsComplete FetchResult.unreachable = (λ e. ground arith, λ (body, e, c). ground arith)
redeem_once-IsComplete (FetchResult.responded true (some body)) = (
  (λ e. (body, refl, (session_of_body-IsComplete body).0 e)),
  λ (other, e, c). (session_of_body-IsComplete body).1 (subst IsComplete (cc e) c),
)
redeem_once-IsComplete (FetchResult.responded true none) =
    (λ e. ground arith, λ (body, e, c). ground arith)
redeem_once-IsComplete (FetchResult.responded false o) =
    (λ e. ground arith, λ (body, e, c). ground arith)

-- The paths that are open to everyone.
abbrev pub IsOpen : String → Type 0
IsOpen path =
    (starts_with path "/login" ≡ true)
    ⊎ ((starts_with path "/register" ≡ true)
        ⊎ ((starts_with path "/verify-email" ≡ true)
            ⊎ ((starts_with path "/forgot-password" ≡ true)
                ⊎ ((starts_with path "/reset-password" ≡ true)
                    ⊎ (starts_with path "/v1/auth/callback" ≡ true)))))

is_public-IsOpen : (path : String) → (is_public path ≡ true) ↔ IsOpen path
unfolding is_public
is_public-IsOpen path = (λ e. ground arith, λ o. ground arith)

module _ (mock production : Bool) (base : String) (gateway : Sent → FetchResult)
    (r : PageRequest) where
  -- The gateway answers a refresh token with a success and a complete body.
  abbrev pub Replies : String → Type 0
  Replies token =
      (body : RefreshBody) × (gateway (redeem_request base token (forwarded r))
        ≡ FetchResult.responded true (some body))
      × IsComplete body

  -- The gateway gives a complete session for a refresh cookie that is not empty.
  abbrev pub Renews : Option String → Type 0
  Renews refresh = (token : String) × (refresh ≡ some token) × (token ≢ "") × Replies token

  answered : Option String → Option IssuedSession
  answered refresh =
      chain (or_undefined refresh)
        (λ token. redeem_once (gateway (redeem_request base token (forwarded r))))

  answered-full :
      (token : String)
      → is_some (answered (some token)) ≡ true
      → (token ≢ "")
        × (is_some (redeem_once (gateway (redeem_request base token (forwarded r)))) ≡ true)
  unfolding answered
  answered-full token e = ground (arith, eq_iff token "")

  answered-Replies :
      (token : String) → token ≢ "" → Replies token → is_some (answered (some token)) ≡ true
  unfolding answered
  answered-Replies token full replies =
      ground (arith, eq_iff token "", (redeem_once-IsComplete _).1 replies)

  answered-Renews : (refresh : Option String) → (is_some (answered refresh) ≡ true) ↔ Renews refresh
  answered-Renews none = (
    (λ e. absurd (unfold answered in cc e)),
    λ (token, given, full, replies). absurd (none-ne-some token given),
  )
  answered-Renews (some token) = (
    (λ e.
        let (full, redeemed) = answered-full token e in
        (token, refl, full, (redeem_once-IsComplete _).0 redeemed)),
    λ (t, given, full, replies).
        subst (λ q. is_some (answered (some q)) ≡ true) (sym (cc given))
          (answered-Replies t full replies),
  )

  shown :
      is_next (proxy mock production base gateway r)
      ≡ (mock || truthy_opt r.session || is_public r.pathname || is_some (answered r.refresh))
  unfolding proxy renewal_call answered
  shown = ground arith

  session-full :
      (session : Option String)
      → (truthy_opt session ≡ true) ↔ ((s : String) × (session ≡ some s) × (s ≢ ""))
  session-full none = ((λ e. absurd (cc e)), λ (s, given, full). absurd (none-ne-some s given))
  session-full (some s) = (
    (λ e. (s, refl, (λ z. ground (arith, eq_iff s "")))),
    λ (t, given, full). ground (arith, eq_iff s ""),
  )

  -- A page is rendered exactly in mock mode, with a session cookie that is not empty, on an open
  -- path, or where the gateway answers the refresh cookie, which is not empty, with a success and a
  -- body whose session token, refresh token and expiry are all full; otherwise the answer is the
  -- login page.
  pub is_next-proxy : (is_next (proxy mock production base gateway r) ≡ true) ↔ (
      (mock ≡ true)
      ⊎ (((s : String) × (r.session ≡ some s) × (s ≢ "")) ⊎ (IsOpen r.pathname ⊎ Renews r.refresh)))
  is_next-proxy = (
    (λ e. ground (
      arith,
      e,
      shown,
      (session-full r.session).0,
      (is_public-IsOpen r.pathname).0,
      (answered-Renews r.refresh).0,
    )),
    λ passes. ground (
      arith,
      passes,
      shown,
      (session-full r.session).1,
      (is_public-IsOpen r.pathname).1,
      (answered-Renews r.refresh).1,
    ),
  )
