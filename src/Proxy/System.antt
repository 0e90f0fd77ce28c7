-- ===== src/Proxy/System.antt =====
-- Concurrent calls of `proxyToGateway`: the map of refreshes in flight, its promises, and each
-- call as a state machine that moves between two awaits at a time.
pub mod Invariant
pub mod Leading
pub mod Steps
pub mod Effects
pub mod Responses
pub mod Progress
pub mod Keyed
use pact_web.Prelude.{
  ℕ, suc, Bool, true, false, ◌&&◌, if◌then◌else◌, Option, none, some, List, [], ◌∷◌, String, ◌==◌,
  eqb, or_else, is_some,
}
use pact_web.Prelude.Text.{truthy_opt}
use pact_web.Proxy.Headers.{Headers, RotatedPair, Upstream, read_rotated_pair}
use pact_web.Proxy.Request.{
  Request, Role, leader, follower, plain, key_of, outbound_headers, retry_headers, Sent,
  fetch_upstream, Response, to_proxy_response, roll_cookies,
}

-- `inFlightRefresh` with its promises. A promise is a number below `next`; it is pending while
-- `settled` has nothing for it.
pub record Store : Type 0 where
  pub in_flight : String → Option ℕ
  pub next : ℕ
  pub settled : ℕ → Option (Option RotatedPair)

-- Where a call stands.
pub data Phase : Type 0 where
  -- not started
  idle : Phase
  -- awaits its (first) `fetch`
  sent : Request → Role → Phase
  -- a follower that has its own response and awaits the leader's promise
  waiting : Request → ℕ → Upstream → Phase
  -- awaits the `fetch` of its retry
  retrying : Request → RotatedPair → Phase
  -- answered
  done : Response → Phase
  -- the handler threw
  failed : Phase

pub record System : Type 0 where
  pub store : Store
  pub calls : ℕ → Phase

-- What happens to a call: it arrives, its `fetch` answers or throws, or its promise is looked at.
pub data Event : Type 0 where
  arrive : Request → Event
  answer : Upstream → Event
  network_error : Event
  wake : Event

abbrev pub update {ℓ} : {A : Type ℓ} → (ℕ → A) → ℕ → A → ℕ → A
update f i a j = if eqb i j then a else f j

abbrev update_key {ℓ} : {A : Type ℓ} → (String → A) → String → A → String → A
update_key f k a j = if k == j then a else f j

-- `session ? inFlightRefresh.get(session) : undefined`
abbrev leader_promise : Store → Request → Option ℕ
leader_promise st r = elim (key_of r) [ none ↦ none | some k ↦ st.in_flight k ]

-- The new promise of a leader.
abbrev pub open_promise : Store → String → Store
open_promise st k = record st {
  in_flight = update_key st.in_flight k (some st.next);
  next = suc st.next;
}

-- From the start of the handler to its first `fetch`.
unfoldable pub begin : Store → Request → Store × Role
begin st r = elim (leader_promise st r) [
  | some p ↦ (st, follower p)
  | none ↦ elim (key_of r) [
    | none ↦ (st, plain)
    | some k ↦ if truthy_opt r.refresh then (open_promise st k, leader st.next) else (st, plain)
  ]
]

abbrev drop_key : Store → Option String → String → Option ℕ
drop_key st none = st.in_flight
drop_key st (some k) = update_key st.in_flight k none

-- The `finally` block: `resolveLeader(rotated)` and `inFlightRefresh.delete(session)`.
unfoldable pub settle : Store → Request → Role → Option RotatedPair → Store
settle st r (leader p) pair = record st {
  in_flight = drop_key st (key_of r);
  settled = update st.settled p (some pair);
}
settle st r _ pair = st

module _ (production : Bool) where
  -- After the first `fetch`: a follower goes on to its promise, any other call answers.
  unfoldable pub on_answer : Request → Role → Upstream → Phase
  on_answer r (follower p) up = waiting r p up
  on_answer r _ up = done (roll_cookies production (read_rotated_pair up) (to_proxy_response up))

  -- A follower with the leader's outcome. A 401 is retried once, with the pair of the leader.
  unfoldable pub on_leader : Request → Upstream → Option RotatedPair → Phase
  on_leader r up none = done (roll_cookies production (read_rotated_pair up) (to_proxy_response up))
  on_leader r up (some pair) =
      if eqb up.status 401
      then retrying r pair
      else done (roll_cookies production (some pair) (to_proxy_response up))

  -- The rotated pair of the retry's own response is not read.
  unfoldable pub on_retry : RotatedPair → Upstream → Phase
  on_retry pair up = done (roll_cookies production (some pair) (to_proxy_response up))

  abbrev set_phase : System → ℕ → Phase → System
  set_phase s i ph = record s { calls = update s.calls i ph }

  start : System → ℕ → Request → System
  start s i r =
      let (st, role) = begin s.store r in
      record { store = st; calls = update s.calls i (sent r role) }

  finish : System → ℕ → Request → Role → Option RotatedPair → Phase → System
  finish s i r role pair ph = record {
    store = settle s.store r role pair;
    calls = update s.calls i ph;
  }

  -- One event of call `i`, by its phase; an event that does not fit changes nothing.
  advance : Phase → System → ℕ → Event → System
  unfolding start finish
  advance idle s i (arrive r) = start s i r
  advance (sent r role) s i (answer up) =
      finish s i r role (read_rotated_pair up) (on_answer r role up)
  advance (sent r role) s i network_error = finish s i r role none failed
  advance (waiting r p up) s i wake = elim (s.store.settled p) [
    | none ↦ s
    | some pair ↦ set_phase s i (on_leader r up pair)
  ]
  advance (retrying r pair) s i (answer up) = set_phase s i (on_retry pair up)
  advance (retrying r pair) s i network_error = set_phase s i failed
  advance _ s i e = s

  unfoldable pub step : System → ℕ × Event → System
  unfolding advance
  step s (i, e) = advance (s.calls i) s i e

  unfoldable pub run : System → List (ℕ × Event) → System
  run s [] = s
  run s (e ∷ es) = run (step s e) es

-- No call has started, and nothing is in flight.
unfoldable pub initial : System
initial = record {
  store = record { in_flight = λ _. none; next = 0; settled = λ _. none };
  calls = λ _. idle;
}

-- The upstream call that a phase waits for.
module _ (gateway_base_url : String) where
  unfoldable pub outstanding : Phase → Option Sent
  outstanding (sent r role) = some (fetch_upstream gateway_base_url r (outbound_headers r role))
  outstanding (retrying r pair) =
      some
        (fetch_upstream gateway_base_url r (retry_headers pair (outbound_headers r (follower 0))))
  outstanding _ = none
