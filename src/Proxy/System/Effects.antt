-- ===== src/Proxy/System/Effects.antt =====
-- What the gateway and the browser see of any run of concurrent calls.
use pact_web.Prelude.{
  ℕ, ◌≡◌, ◌≢◌, refl, ap, ◌∙◌, inl, inr, Bool, Option, none, some, List, [], ◌∷◌, String, arith,
  chain, length, ◌≤◌, Option-cases,
}
use pact_web.Proxy.Headers.{RotatedPair, Upstream, get, refresh_header}
use pact_web.Proxy.Request.{
  Request, leader, follower, plain, key_of, outbound_headers, fetch_upstream,
}
use pact_web.Proxy.Request.Outbound.{refresh-outbound_headers, get-retry_headers}
use mathlib.Core.Path.{subst}
use pact_web.Proxy.System.{
  System, Phase, sent, waiting, retrying, Event, run, initial, outstanding, wake, network_error,
  step, settle, advance, on_leader,
}
use pact_web.Proxy.System.Invariant.{leads, Inv, initial-Inv}
use pact_web.Proxy.System.Steps.{run-Inv}

-- Every state that any events reach from the start.
abbrev pub reached : Bool → List (ℕ × Event) → System
reached production events = run production initial events

reached-Inv : (production : Bool) (events : List (ℕ × Event)) → Inv (reached production events)
reached-Inv production events = run-Inv production initial events initial-Inv

-- The refresh token that a call's unanswered upstream request presents.
abbrev pub presents : String → Phase → Option String
presents base ph = chain (outstanding base ph) (λ out. get refresh_header out.headers)

-- The session under which a call that is out upstream meets the others.
abbrev pub meets : Phase → Option String
meets (sent r role) = key_of r
meets (retrying r pair) = key_of r
meets _ = none

presents-leads :
    (base k : String) (ph : Phase)
    → presents base ph ≢ none
    → meets ph ≡ some k
    → (p : ℕ) × (leads ph ≡ some (k, p))
unfolding outstanding fetch_upstream
presents-leads base k (sent r (leader p)) h m = (p, ground arith)
presents-leads base k (sent r (follower p)) h m =
    absurd (h (refresh-outbound_headers r (follower p)))
presents-leads base k (sent r plain) h m = absurd (h (refresh-outbound_headers r plain))
presents-leads base k (retrying r pair) h m =
    absurd (h (get-retry_headers pair refresh_header (outbound_headers r (follower 0))))
presents-leads base k _ h m = absurd (h refl)

-- After any events, at most one of the calls that are out upstream under one session presents a
-- refresh token.
pub single_flight :
    (base : String) (production : Bool) (events : List (ℕ × Event)) (i j : ℕ) (k : String)
    → presents base ((reached production events).calls i) ≢ none
    → presents base ((reached production events).calls j) ≢ none
    → meets ((reached production events).calls i) ≡ some k
    → meets ((reached production events).calls j) ≡ some k
    → i ≡ j
single_flight base production events i j k hi hj mi mj =
    let inv = reached-Inv production events in
    let (p, li) = presents-leads base k _ hi mi in
    let (q, lj) = presents-leads base k _ hj mj in
    let same : q ≡ p = ground (arith, inv.entered i k p li, inv.entered j k q lj) in
    inv.unique i j k k p li
      (subst (λ x. leads ((reached production events).calls j) ≡ some (k, x)) same lj)

-- A call that waits for its leader no more.
abbrev pub IsReleased : Phase → Type 0
IsReleased (waiting r p up) = ⊥
IsReleased _ = Unit

wake_lem :
    (production : Bool) (s : System) (i p : ℕ) (r : Request) (up : Upstream)
    (pair : Option RotatedPair)
    → s.calls i ≡ waiting r p up
    → s.store.settled p ≡ some pair
    → IsReleased ((step production s (i, wake)).calls i)
unfolding step advance on_leader
wake_lem production s i p r up pair at out = rw (at, advance) (rw (out, advance) (ground arith))

leads_sent :
    (ph : Phase) {k : String} {p : ℕ}
    → leads ph ≡ some (k, p)
    → (r : Request) × (ph ≡ sent r (leader p))
leads_sent (sent r (leader q)) h = (r, ground arith)
leads_sent (sent r (follower q)) h = cc
leads_sent (sent r plain) h = cc
leads_sent _ h = cc

-- A leader whose `fetch` throws settles its promise, and touches no other call.
error_lem :
    (production : Bool) (s : System) (j p : ℕ) (r : Request)
    → s.calls j ≡ sent r (leader p)
    → ((step production s (j, network_error)).store.settled p ≡ some none)
      × ((i : ℕ) → i ≢ j → (step production s (j, network_error)).calls i ≡ s.calls i)
unfolding step advance settle
error_lem production s j p r at = rw (at, advance) (ground arith, λ i ne. ground arith)

-- After any events, a call that waits for its leader can be released: at most two further events
-- bring it out of its waiting.
pub follower-IsReleased :
    (production : Bool) (events : List (ℕ × Event)) (i p : ℕ) (r : Request) (up : Upstream)
    → (reached production events).calls i ≡ waiting r p up
    → (more : List (ℕ × Event)) × (length more ≤ 2)
      × IsReleased ((run production (reached production events) more).calls i)
unfolding run
follower-IsReleased production events i p r up at =
    elim (Option-cases ((reached production events).store.settled p)) [
      | inr (pair, out) ↦ (
        (i, wake) ∷ [],
        omega arith,
        wake_lem production (reached production events) i p r up pair at out,
      )
      | inl pending ↦ elim ((reached-Inv production events).awaited i p (rw at)) [
        | inl out ↦ absurd (out pending)
        | inr (j, k, lead) ↦
            let s = reached production events in
            let (r', here) = leads_sent (s.calls j) lead in
            let (out, rest) = error_lem production s j p r' here in
            (
              (j, network_error) ∷ (i, wake) ∷ [],
              omega arith,
              wake_lem production (step production s (j, network_error)) i p r up none
                  (rest i (λ same. cc (ap s.calls same)) ∙ at) out,
            )
      ]
    ]
