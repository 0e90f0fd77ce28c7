-- ===== src/Proxy/System/Steps.antt =====
-- Every event of every call keeps the invariant.
use pact_web.Prelude.{
  ℕ, ◌≡◌, refl, inl, inr, Bool, Option, none, some, List, [], ◌∷◌, String, Bool-cases, Option-cases,
  arith,
}
use pact_web.Prelude.Text.{truthy_opt}
use pact_web.Proxy.Headers.{RotatedPair, Upstream}
use pact_web.Proxy.Request.{Request, Role, leader, follower, plain, key_of}
use pact_web.Proxy.System.{
  Store, System, Phase, idle, sent, waiting, retrying, failed, Event, arrive, answer, network_error,
  wake, begin, settle, on_answer, on_leader, on_retry, step, advance, run, open_promise, finish,
}
use pact_web.Proxy.System.Invariant.{leads, follows, Inv, quiet-Inv}
use pact_web.Proxy.System.Leading.{opened-Inv, closed-Inv}
use pact_web.Proxy.Headers.{read_rotated_pair}

-- How a call starts: as a follower, alone, or as the leader of a session with no entry.
data Started (st : Store) (r : Request) : Type 0 where
  joined :
      (k : String) (p : ℕ) → st.in_flight k ≡ some p → begin st r ≡ (st, follower p) → Started st r
  alone : begin st r ≡ (st, plain) → Started st r
  led :
      (k : String)
      → key_of r ≡ some k
      → st.in_flight k ≡ none
      → begin st r ≡ (open_promise st k, leader st.next)
      → Started st r

started : (st : Store) (r : Request) → Started st r
unfolding begin
started st r = elim (Option-cases (key_of r)) [
  | inl keyless ↦ alone (ground arith)
  | inr (k, key) ↦ elim (Option-cases (st.in_flight k)) [
    | inr (p, entry) ↦ joined k p entry (ground arith)
    | inl free ↦ elim (Bool-cases (truthy_opt r.refresh)) [
      | inl some_token ↦ led k key free (ground arith)
      | inr no_token ↦ alone (ground arith)
    ]
  ]
]

-- A call that has its answer leads nothing, and a follower waits for the promise that it joined.
module _ (production : Bool) where
  on_answer-leads :
      (r : Request) (role : Role) (up : Upstream) → leads (on_answer production r role up) ≡ none
  unfolding on_answer
  on_answer-leads r role up = ground arith

  on_answer-follows :
      (r : Request) (role : Role) (up : Upstream) (p : ℕ)
      → follows (on_answer production r role up) ≡ some p
      → role ≡ follower p
  unfolding on_answer
  on_answer-follows r role up p h = ground arith

  on_leader-leads :
      (r : Request) (up : Upstream) (pair : Option RotatedPair)
      → leads (on_leader production r up pair) ≡ none
  unfolding on_leader
  on_leader-leads r up pair = ground arith

  on_leader-follows :
      (r : Request) (up : Upstream) (pair : Option RotatedPair)
      → follows (on_leader production r up pair) ≡ none
  unfolding on_leader
  on_leader-follows r up pair = ground arith

-- Every event of every call keeps the invariant.
module _ (production : Bool) (s : System) (i : ℕ) (inv : Inv s) where
  arrive-Inv : (r : Request) → s.calls i ≡ idle → Inv (advance production idle s i (arrive r))
  unfolding advance
  arrive-Inv r at = elim (started s.store r) [
    | joined k p entry b ↦ rw b (
        quiet-Inv s i (sent r (follower p)) inv (ground arith) refl
          (λ q e. inr (let (j, h) = inv.owned k p entry in (j, k, ground arith))))
    | alone b ↦ rw b (quiet-Inv s i (sent r plain) inv (ground arith) refl (λ q e. cc))
    | led k key free b ↦ rw b (opened-Inv s i r k inv at key free)
  ]

  finish-Inv :
      (r : Request) (role : Role) (pair : Option RotatedPair) (ph : Phase)
      → s.calls i ≡ sent r role
      → leads ph ≡ none
      → ((p : ℕ) → follows ph ≡ some p → role ≡ follower p)
      → Inv (finish production s i r role pair ph)
  unfolding finish settle
  finish-Inv r (leader p) pair ph at after same =
      closed-Inv s i r p pair ph inv at after
        (elim (Option-cases (follows ph)) [ inl e ↦ e | inr (q, e) ↦ cc (same q e) ])
  finish-Inv r (follower p) pair ph at after same =
      quiet-Inv s i ph inv (ground arith) after (λ q e. inv.awaited i q (ground (arith, same q e)))
  finish-Inv r plain pair ph at after same =
      quiet-Inv s i ph inv (ground arith) after (λ q e. cc (same q e))

  advance-Inv : (ph : Phase) (e : Event) → s.calls i ≡ ph → Inv (advance production ph s i e)
  unfolding advance
  advance-Inv idle (arrive r) at = arrive-Inv r at
  advance-Inv (sent r role) (answer up) at =
      finish-Inv r role (read_rotated_pair up) (on_answer production r role up) at
        (on_answer-leads production r role up) (on_answer-follows production r role up)
  advance-Inv (sent r role) network_error at = finish-Inv r role none failed at refl (λ q e. cc)
  advance-Inv (waiting r p up) wake at = elim (Option-cases (s.store.settled p)) [
    | inl pending ↦ rw (pending, advance) inv
    | inr (pair, out) ↦
        rw (out, advance)
          (quiet-Inv s i (on_leader production r up pair) inv (ground arith)
            (on_leader-leads production r up pair)
            (λ q e. ground (arith, on_leader-follows production r up pair)))
  ]
  advance-Inv (retrying r pair) (answer up) at =
      quiet-Inv s i (on_retry production pair up) inv (ground arith) (unfold on_retry in refl)
        (λ q e. unfold on_retry in cc)
  advance-Inv (retrying r pair) network_error at =
      quiet-Inv s i failed inv (ground arith) refl (λ q e. cc)
  advance-Inv _ _ at = inv

  step-Inv : (e : Event) → Inv (step production s (i, e))
  unfolding step
  step-Inv e = advance-Inv (s.calls i) e refl

pub run-Inv :
    (production : Bool) (s : System) (events : List (ℕ × Event))
    → Inv s
    → Inv (run production s events)
unfolding run
run-Inv production s [] inv = inv
run-Inv production s ((i, e) ∷ events) inv =
    run-Inv production (step production s (i, e)) events (step-Inv production s i inv e)
