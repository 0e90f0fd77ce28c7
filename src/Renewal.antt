-- ===== src/Renewal.antt =====
-- src/lib/proxy/refresh_session.ts: redeeming a refresh token, one call at a time for each token.
pub mod SingleFlight
pub mod Tests
use pact_web.Prelude.{
  ℕ, suc, Bool, true, false, ◌&&◌, if◌then◌else◌, Option, none, some, List, [], ◌∷◌, String, ◌==◌,
  eqb, not,
}
use pact_web.Prelude.Text.{truthy_opt, truthy, ◌<>◌}
use pact_web.Cookies.{IssuedSession}
use pact_web.Proxy.Headers.{Headers, set, refresh_header}
use pact_web.Proxy.Request.{Sent}

-- A body of the declared type.
pub record RefreshBody : Type 0 where
  pub session_token : Option String
  pub refresh_token : Option String
  pub expires_at_unix : Option ℕ

-- How the `fetch` ends: it throws, or gives `res.ok` and what `res.json()` gives, if anything.
pub data FetchResult : Type 0 where
  unreachable : FetchResult
  responded : Bool → Option RefreshBody → FetchResult

unfoldable pub redeem_headers : String → Option String → Headers
redeem_headers refresh_token client_ip =
    let hs = (refresh_header, refresh_token) ∷ [] in
    elim client_ip [ none ↦ hs | some ip ↦ if truthy ip then set "x-forwarded-for" ip hs else hs ]

-- The session of a complete body.
unfoldable pub session_of_body : RefreshBody → Option IssuedSession
session_of_body body = elim body.session_token [
  | none ↦ none
  | some session ↦ elim body.refresh_token [
    | none ↦ none
    | some refresh ↦ elim body.expires_at_unix [
      | none ↦ none
      | some expires ↦
          if truthy session && truthy refresh && not (eqb expires 0)
          then some (record {
            session_token = session;
            refresh_token = refresh;
            expires_at_unix = expires;
          })
          else none
    ]
  ]
]

-- `redeemOnce` behind its request.
unfoldable pub redeem_once : FetchResult → Option IssuedSession
unfolding session_of_body
redeem_once unreachable = none
redeem_once (responded false body) = none
redeem_once (responded true none) = none
redeem_once (responded true (some body)) = session_of_body body

module _ (gateway_base_url : String) where
  unfoldable pub redeem_request : String → Option String → Sent
  redeem_request refresh_token client_ip = record {
    url = gateway_base_url <> "/v1/auth/session/refresh";
    method = "POST";
    headers = redeem_headers refresh_token client_ip;
    body = none;
  }

-- `inFlightRenewal`, and the token of each redemption that is out; redemptions are numbered.
pub record Renewals : Type 0 where
  pub in_flight : String → Option ℕ
  pub next : ℕ
  pub out : ℕ → Option String

-- A caller asks for a token's renewal, or a redemption is over, whatever its outcome.
pub data RenewalEvent : Type 0 where
  ask : String → RenewalEvent
  over : ℕ → RenewalEvent

-- `redeemRefreshToken`: a caller joins the redemption in flight, or starts one.
unfoldable pub redeem_refresh_token : Renewals → String → Renewals × ℕ
redeem_refresh_token st token = elim (st.in_flight token) [
  | some p ↦ (st, p)
  | none ↦ (
    record st {
      in_flight = λ t. if token == t then some st.next else st.in_flight t;
      next = suc st.next;
      out = λ p. if eqb st.next p then some token else st.out p;
    },
    st.next,
  )
]

-- The `finally` of a redemption.
unfoldable pub end_renewal : Renewals → ℕ → Renewals
end_renewal st p = elim (st.out p) [
  | none ↦ st
  | some token ↦ record st {
    in_flight = λ t. if token == t then none else st.in_flight t;
    out = λ q. if eqb p q then none else st.out q;
  }
]

unfoldable pub renewal_step : Renewals → RenewalEvent → Renewals
renewal_step st (ask token) = (redeem_refresh_token st token).0
renewal_step st (over p) = end_renewal st p

unfoldable pub renewal_run : Renewals → List RenewalEvent → Renewals
renewal_run st [] = st
renewal_run st (e ∷ es) = renewal_run (renewal_step st e) es

unfoldable pub no_renewals : Renewals
no_renewals = record { in_flight = λ _. none; next = 0; out = λ _. none }
