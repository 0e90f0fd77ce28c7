-- ===== src/Proxy/System/Invariant.antt =====
-- Which call leads which refresh, in every reachable state.
use pact_web.Prelude.{ℕ, ◌<◌, ◌≡◌, ◌≢◌, ◌⊎◌, inl, inr, Option, none, some, String, arith}
use pact_web.Proxy.Request.{leader, follower, key_of}
use pact_web.Proxy.System.{System, Phase, sent, waiting, initial, update}

-- The session and promise that a call leads.
abbrev pub leads : Phase → Option (String × ℕ)
leads (sent r (leader p)) = elim (key_of r) [ none ↦ none | some k ↦ some (k, p) ]
leads _ = none

-- The promise that a call will wait for.
abbrev pub follows : Phase → Option ℕ
follows (sent r (follower p)) = some p
follows (waiting r p up) = some p
follows _ = none

pub record Inv (s : System) : Type 0 where
  -- an entry has a live leader
  pub owned :
      (k : String) (p : ℕ)
      → s.store.in_flight k ≡ some p
      → (i : ℕ) × (leads (s.calls i) ≡ some (k, p))
  -- a live leader has its entry
  pub entered :
      (i : ℕ) (k : String) (p : ℕ) → leads (s.calls i) ≡ some (k, p) → s.store.in_flight k ≡ some p
  -- a promise has one leader, and is an old number
  pub unique :
      (i j : ℕ) (k l : String) (p : ℕ)
      → leads (s.calls i) ≡ some (k, p)
      → leads (s.calls j) ≡ some (l, p)
      → i ≡ j
  pub old : (i : ℕ) (k : String) (p : ℕ) → leads (s.calls i) ≡ some (k, p) → p < s.store.next
  -- whoever waits is woken: the promise is settled, or its leader is still out
  pub awaited :
      (i p : ℕ)
      → follows (s.calls i) ≡ some p
      → (s.store.settled p ≢ none) ⊎ ((j : ℕ) × (k : String) × (leads (s.calls j) ≡ some (k, p)))

pub initial-Inv : Inv initial
unfolding initial
initial-Inv = ground arith

-- What a phase that waits for `p` needs.
abbrev pub Woken : System → ℕ → Type 0
Woken s p =
    (s.store.settled p ≢ none) ⊎ ((j : ℕ) × (k : String) × (leads (s.calls j) ≡ some (k, p)))

-- A call that leads nothing, before and after, moves on with the store as it is.
module _ (s : System) (i : ℕ) (ph : Phase) (inv : Inv s) (before : leads (s.calls i) ≡ none)
    (after : leads ph ≡ none) where
  still_leads :
      (j : ℕ) {x : String × ℕ} → leads (s.calls j) ≡ some x → leads (update s.calls i ph j) ≡ some x
  still_leads j e = ground arith

  still-Woken : (p : ℕ) → Woken s p → Woken (record s { calls = update s.calls i ph }) p
  still-Woken p (inl e) = inl e
  still-Woken p (inr (j, k, e)) = inr (j, k, still_leads j e)

  pub quiet-Inv :
      ((p : ℕ) → follows ph ≡ some p → Woken s p) → Inv (record s { calls = update s.calls i ph })
  quiet-Inv woken = record {
    owned = λ k p e. let (j, h) = inv.owned k p e in (j, still_leads j h);
    entered = λ j k p e. inv.entered j k p (ground arith);
    unique = λ j l k m p e f. inv.unique j l k m p (ground arith) (ground arith);
    old = λ j k p e. inv.old j k p (ground arith);
    awaited = λ j p e. still-Woken p (ground (arith, woken p, inv.awaited j p));
  }
