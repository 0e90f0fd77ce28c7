-- ===== src/Proxy/System/Keyed.antt =====
-- A leader has a session, so a call without one presents no refresh token.
use mathlib.Core.Option.{some-injective}
use pact_web.Prelude.{
  ℕ, ◌≡◌, ◌≢◌, refl, sym, subst, Bool, inl, inr, Bool-cases, Option-cases, if-cases, Option, none,
  some, List, [], ◌∷◌, String, arith, eqb,
}
use pact_web.Prelude.Text.{truthy_opt}
use pact_web.Proxy.Headers.{Upstream, RotatedPair}
use pact_web.Proxy.Request.{
  Request, Role, leader, follower, plain, key_of, outbound_headers, fetch_upstream,
}
use pact_web.Proxy.Request.Outbound.{refresh-outbound_headers, get-retry_headers}
use pact_web.Proxy.Headers.{refresh_header}
use pact_web.Proxy.System.{
  Store, System, Phase, idle, sent, waiting, retrying, failed, Event, arrive, answer, network_error,
  wake, begin, on_answer, on_leader, on_retry, advance, step, run, initial, update, outstanding,
}
use pact_web.Proxy.System.Effects.{reached, presents}

-- A leader's request has a session.
abbrev pub Keyed : Phase → Type 0
Keyed (sent r (leader p)) = key_of r ≢ none
Keyed _ = Unit

begin-Keyed : (st : Store) (r : Request) → Keyed (sent r (begin st r).1)
unfolding begin
begin-Keyed st r = elim (Option-cases (key_of r)) [
  | inl keyless ↦ ground arith
  | inr (k, key) ↦ elim (Option-cases (st.in_flight k)) [
    | inr (p, entry) ↦ ground arith
    | inl free ↦ elim (Bool-cases (truthy_opt r.refresh)) [
      | inl some_token ↦ ground arith
      | inr no_token ↦ ground arith
    ]
  ]
]

module _ (production : Bool) where
  on_answer-Keyed :
      (r : Request) (role : Role) (up : Upstream) → Keyed (on_answer production r role up)
  unfolding on_answer
  on_answer-Keyed r (leader p) up = tt
  on_answer-Keyed r (follower p) up = tt
  on_answer-Keyed r plain up = tt

  on_leader-Keyed :
      (r : Request) (up : Upstream) (pair : Option RotatedPair)
      → Keyed (on_leader production r up pair)
  unfolding on_leader
  on_leader-Keyed r up none = tt
  on_leader-Keyed r up (some pair) =
      if-cases Keyed (eqb up.status 401) _ _ (λ refused. tt) λ accepted. tt

  AreKeyed : System → Type 0
  AreKeyed s = (j : ℕ) → Keyed (s.calls j)

  update-Keyed :
      (s : System) (i j : ℕ) (ph : Phase) → AreKeyed s → Keyed ph → Keyed (update s.calls i ph j)
  unfolding AreKeyed
  update-Keyed s i j ph keyed here =
      if-cases Keyed (eqb i j) ph (s.calls j) (λ same. here) λ other. keyed j

  advance-Keyed :
      (ph : Phase) (s : System) (i j : ℕ) (e : Event)
      → AreKeyed s
      → Keyed ((advance production ph s i e).calls j)
  unfolding advance AreKeyed on_retry
  advance-Keyed idle s i j (arrive r) keyed = update-Keyed s i j _ keyed (begin-Keyed s.store r)
  advance-Keyed (sent r role) s i j (answer up) keyed =
      update-Keyed s i j _ keyed (on_answer-Keyed r role up)
  advance-Keyed (sent r role) s i j network_error keyed = update-Keyed s i j failed keyed tt
  advance-Keyed (waiting r p up) s i j wake keyed = elim (Option-cases (s.store.settled p)) [
    | inl pending ↦ rw (pending, advance) (keyed j)
    | inr (pair, out) ↦ rw (out, advance) (update-Keyed s i j _ keyed (on_leader-Keyed r up pair))
  ]
  advance-Keyed (retrying r pair) s i j (answer up) keyed = update-Keyed s i j _ keyed tt
  advance-Keyed (retrying r pair) s i j network_error keyed = update-Keyed s i j failed keyed tt
  advance-Keyed _ s i j e keyed = keyed j

  run-Keyed :
      (s : System) (events : List (ℕ × Event)) → AreKeyed s → AreKeyed (run production s events)
  unfolding run step AreKeyed
  run-Keyed s [] keyed = keyed
  run-Keyed s ((i, e) ∷ events) keyed =
      run-Keyed (step production s (i, e)) events (λ j. advance-Keyed (s.calls i) s i j e keyed)

  pub reached-Keyed :
      (events : List (ℕ × Event)) (i : ℕ) → Keyed ((reached production events).calls i)
  unfolding AreKeyed initial
  reached-Keyed events = run-Keyed initial events (λ j. tt)

-- The request of a call that is under way.
abbrev pub request_of : Phase → Option Request
request_of (sent r role) = some r
request_of (waiting r p up) = some r
request_of (retrying r pair) = some r
request_of _ = none

pub presents-none :
    (base : String) (ph : Phase) (req : Request)
    → Keyed ph
    → request_of ph ≡ some req
    → key_of req ≡ none
    → presents base ph ≡ none
unfolding outstanding fetch_upstream
presents-none base (sent r (leader p)) req keyed of free =
    absurd (keyed (subst (λ q. key_of q ≡ none) (sym (some-injective r req of)) free))
presents-none base (sent r (follower p)) req keyed of free = refresh-outbound_headers r (follower p)
presents-none base (sent r plain) req keyed of free = refresh-outbound_headers r plain
presents-none base (retrying r pair) req keyed of free =
    get-retry_headers pair refresh_header (outbound_headers r (follower 0))
presents-none base _ req keyed of free = refl
