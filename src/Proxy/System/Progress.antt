-- ===== src/Proxy/System/Progress.antt =====
-- A call of the proxy moves towards its answer.
use pact_web.Prelude.{
  ℕ, ◌≡◌, ◌<◌, refl, ◌⊎◌, inl, inr, Bool, Option, none, some, arith, Option-cases, Bool-cases, eqb,
  sym, subst, ◌+◌, ◌≤◌, ◌&&◌, true, false, is_some, if◌then◌else◌, List, [], ◌∷◌,
}
use pact_web.Proxy.System.{
  System, Event, arrive, answer, network_error, wake, Phase, idle, sent, waiting, retrying, advance,
  step, run, Store, update, on_answer, on_leader, on_retry,
}
use pact_web.Proxy.Headers.{RotatedPair, Upstream}
use pact_web.Proxy.Request.{Request, Role, follower}

-- How many moves a call has left at most.
abbrev pub rank : Phase → ℕ
rank idle = 4
rank (sent r role) = 3
rank (waiting r p up) = 2
rank (retrying r pair) = 1
rank _ = 0

-- The phase is kept, or the rank falls.
abbrev Nearer : Phase → Phase → Type 0
Nearer ph next = (next ≡ ph) ⊎ (rank next < rank ph)

moved :
    (s : System) (i j : ℕ) (ph next : Phase)
    → s.calls i ≡ ph
    → rank next < rank ph
    → Nearer (s.calls j) (update s.calls i next j)
moved s i j ph next at less = elim (Bool-cases (eqb i j)) [
  | inl here ↦
      let same : i ≡ j = ground arith in
      let less_here : rank next < rank (s.calls i) =
        subst (λ q. rank next < rank q) (sym at) less in
      rw here (inr (subst (λ k. rank next < rank (s.calls k)) same less_here))
  | inr there ↦ rw there (inl refl)
]

on_answer-rank :
    (production : Bool) (r : Request) (role : Role) (up : Upstream)
    → rank (on_answer production r role up) < 3
unfolding on_answer
on_answer-rank production r (follower p) up = omega arith
on_answer-rank production r _ up = omega arith

on_leader-rank :
    (production : Bool) (r : Request) (up : Upstream) (outcome : Option RotatedPair)
    → rank (on_leader production r up outcome) < 2
unfolding on_leader
on_leader-rank production r up none = omega arith
on_leader-rank production r up (some pair) = elim (Bool-cases (eqb up.status 401)) [
  | inl refused ↦ rw refused (omega arith)
  | inr other ↦ rw other (omega arith)
]

advance-Nearer :
    (production : Bool) (ph : Phase) (s : System) (i j : ℕ) (e : Event)
    → s.calls i ≡ ph
    → Nearer (s.calls j) ((advance production ph s i e).calls j)
unfolding advance on_retry
advance-Nearer production idle s i j (arrive r) at = moved s i j idle _ at (omega arith)
advance-Nearer production (sent r role) s i j (answer up) at =
    moved s i j (sent r role) _ at (on_answer-rank production r role up)
advance-Nearer production (sent r role) s i j network_error at =
    moved s i j (sent r role) _ at (omega arith)
advance-Nearer production (waiting r p up) s i j wake at = elim (Option-cases (s.store.settled p)) [
  | inl pending ↦ rw (pending, advance) (inl refl)
  | inr (pair, out) ↦
      rw (out, advance) (moved s i j (waiting r p up) _ at (on_leader-rank production r up pair))
]
advance-Nearer production (retrying r pair) s i j (answer up) at =
    moved s i j (retrying r pair) _ at (omega arith)
advance-Nearer production (retrying r pair) s i j network_error at =
    moved s i j (retrying r pair) _ at (omega arith)
advance-Nearer production _ s i j e at = inl refl

-- An event of any call leaves the phase of every call as it is, or takes it to a smaller rank, in
-- the order idle, sent, waiting, retrying, and answered or failed.
pub step-rank :
    (production : Bool) (s : System) (i j : ℕ) (e : Event)
    → ((step production s (i, e)).calls j ≡ s.calls j)
      ⊎ (rank ((step production s (i, e)).calls j) < rank (s.calls j))
unfolding step
step-rank production s i j e = advance-Nearer production (s.calls i) s i j e refl

-- The events that a call waits for where it stands; a follower's promise has to be settled.
abbrev pub awaits : Store → Phase → Event → Bool
awaits st idle (arrive r) = true
awaits st (sent r role) (answer up) = true
awaits st (sent r role) network_error = true
awaits st (waiting r p up) wake = is_some (st.settled p)
awaits st (retrying r pair) (answer up) = true
awaits st (retrying r pair) network_error = true
awaits st _ e = false

-- One for an event of call `j` that the call waits for.
abbrev pub move : System → ℕ → ℕ × Event → ℕ
move s j (i, e) = if eqb i j && awaits s.store (s.calls i) e then 1 else 0

-- How many events of a run call `j` waits for when they happen.
unfoldable pub moves : Bool → System → ℕ → List (ℕ × Event) → ℕ
moves production s j [] = 0
moves production s j (event ∷ events) =
    move s j event + moves production (step production s event) j events

-- A call that moves on pays with its rank.
paid :
    (s : System) (i j : ℕ) (ph next : Phase) (b : Bool)
    → s.calls i ≡ ph
    → rank next < rank ph
    → (if eqb i j && b then 1 else 0) + rank (update s.calls i next j) ≤ rank (s.calls j)
paid s i j ph next b at less = elim (Bool-cases (eqb i j)) [
  | inl here ↦
      let same : i ≡ j = ground arith in
      let less_here : rank next < rank (s.calls j) =
        subst (λ k. rank next < rank (s.calls k)) same
          (subst (λ q. rank next < rank q) (sym at) less) in
      rw here (ground (arith, less_here))
  | inr there ↦ rw there (omega arith)
]

free : (b : Bool) (n : ℕ) → (if b && false then 1 else 0) + n ≤ n
free true n = omega arith
free false n = omega arith

advance-paid :
    (production : Bool) (ph : Phase) (s : System) (i j : ℕ) (e : Event)
    → s.calls i ≡ ph
    → (if eqb i j && awaits s.store ph e then 1 else 0)
        + rank ((advance production ph s i e).calls j)
      ≤ rank (s.calls j)
unfolding advance on_retry
advance-paid production idle s i j (arrive r) at = paid s i j idle _ true at (omega arith)
advance-paid production (sent r role) s i j (answer up) at =
    paid s i j (sent r role) _ true at (on_answer-rank production r role up)
advance-paid production (sent r role) s i j network_error at =
    paid s i j (sent r role) _ true at (omega arith)
advance-paid production (waiting r p up) s i j wake at = elim (Option-cases (s.store.settled p)) [
  | inl pending ↦ rw (pending, advance) (free (eqb i j) (rank (s.calls j)))
  | inr (pair, out) ↦
      rw (out, advance)
        (paid s i j (waiting r p up) _ true at (on_leader-rank production r up pair))
]
advance-paid production (retrying r pair) s i j (answer up) at =
    paid s i j (retrying r pair) _ true at (omega arith)
advance-paid production (retrying r pair) s i j network_error at =
    paid s i j (retrying r pair) _ true at (omega arith)
advance-paid production _ s i j e at = free (eqb i j) (rank (s.calls j))

step-paid :
    (production : Bool) (s : System) (j : ℕ) (event : ℕ × Event)
    → move s j event + rank ((step production s event).calls j) ≤ rank (s.calls j)
unfolding step
step-paid production s j (i, e) = advance-paid production (s.calls i) s i j e refl

-- In any interleaving, every event that a call waits for costs it a rank: the events of a run that
-- it has waited for and the rank that it has afterwards are together at most its rank before,
-- which is 4 for a call that has not started, and 3, 2, 1 and 0 for one that awaits its first
-- answer, its leader, the answer to its one retry, and nothing more.
pub moves-rank :
    (production : Bool) (s : System) (j : ℕ) (events : List (ℕ × Event))
    → moves production s j events + rank ((run production s events).calls j) ≤ rank (s.calls j)
unfolding moves run
moves-rank production s j [] = omega arith
moves-rank production s j (event ∷ events) = omega (
  arith,
  step-paid production s j event,
  moves-rank production (step production s event) j events,
)
