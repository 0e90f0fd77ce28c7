-- ===== src/Proxy/System/Leading.antt =====
-- The invariant across the start and the end of a leader's upstream call.
use pact_web.Prelude.{
  ℕ, ◌<◌, ◌≡◌, ◌≢◌, ◌⊎◌, inl, inr, Option, none, some, String, ◌==◌, eq_iff, Bool-cases,
  Option-cases, sym, eq_refl, arith,
}
use native.Mathlib.Decide.{ℕ_discrete}
use pact_web.Proxy.Headers.{RotatedPair}
use pact_web.Proxy.Request.{Request, leader, key_of}
use pact_web.Proxy.System.{System, Phase, idle, sent, settle, update, open_promise}
use pact_web.Proxy.System.Invariant.{leads, follows, Inv, Woken}

-- A call that starts as a leader under a session that has no entry.
module _ (s : System) (i : ℕ) (r : Request) (k : String) (inv : Inv s) (fresh : s.calls i ≡ idle)
    (key : key_of r ≡ some k) (free : s.store.in_flight k ≡ none) where
  abbrev opened : System
  opened = record {
    store = open_promise s.store k;
    calls = update s.calls i (sent r (leader s.store.next));
  }

  opened_leads :
      (j : ℕ) {x : String × ℕ} → leads (s.calls j) ≡ some x → leads (opened.calls j) ≡ some x
  opened_leads j e = ground arith

  opened_lead : leads (opened.calls i) ≡ some (k, s.store.next)
  opened_lead = ground arith

  -- the leaders of the new state
  opened_from :
      (j : ℕ) (l : String) (p : ℕ)
      → leads (opened.calls j) ≡ some (l, p)
      → (leads (s.calls j) ≡ some (l, p)) ⊎ ((j ≡ i) × (l ≡ k) × (p ≡ s.store.next))
  opened_from j l p e = ground arith

  opened_owned :
      (l : String) (p : ℕ)
      → opened.store.in_flight l ≡ some p
      → (j : ℕ) × (leads (opened.calls j) ≡ some (l, p))
  opened_owned l p e = elim (Bool-cases (k == l)) [
    | inl same ↦ (i, ground (arith, eq_iff k l))
    | inr other ↦ let (j, h) = inv.owned l p (ground arith) in (j, opened_leads j h)
  ]

  opened-Woken : (p : ℕ) → Woken s p → Woken opened p
  opened-Woken p (inl e) = inl e
  opened-Woken p (inr (j, l, e)) = inr (j, l, opened_leads j e)

  pub opened-Inv : Inv opened
  opened-Inv = record {
    owned = opened_owned;
    entered = λ j l p e. ground (arith, opened_from j l p e, inv.entered j l p, eq_iff k l);
    unique = λ j m l n p e f. ground (
      arith,
      opened_from j l p e,
      opened_from m n p f,
      inv.unique j m l n p,
      inv.old j l p,
      inv.old m n p,
    );
    old = λ j l p e. ground (arith, opened_from j l p e, inv.old j l p);
    awaited = λ j p e. opened-Woken p (ground (arith, inv.awaited j p));
  }

-- A leader whose upstream call is over: its promise is settled and its entry dropped.
module _ (s : System) (i : ℕ) (r : Request) (p : ℕ) (pair : Option RotatedPair) (ph : Phase)
    (inv : Inv s) (at : s.calls i ≡ sent r (leader p)) (after : leads ph ≡ none)
    (free : follows ph ≡ none) where
  abbrev pub closed : System
  closed = record { store = settle s.store r (leader p) pair; calls = update s.calls i ph }

  closed_leads :
      (j : ℕ) {x : String × ℕ}
      → j ≢ i
      → leads (s.calls j) ≡ some x
      → leads (closed.calls j) ≡ some x
  closed_leads j ne e = ground arith

  closed_from :
      (j : ℕ) {x : String × ℕ}
      → leads (closed.calls j) ≡ some x
      → (leads (s.calls j) ≡ some x) × (j ≢ i)
  closed_from j e = ground arith

  closed_owned :
      (l : String) (q : ℕ)
      → closed.store.in_flight l ≡ some q
      → (j : ℕ) × (leads (closed.calls j) ≡ some (l, q))
  unfolding settle
  closed_owned l q e =
      let (j, h) = inv.owned l q (ground arith) in
      (j, closed_leads j (λ same. ground (arith, eq_refl l)) h)

  closed_entered :
      (j : ℕ) (l : String) (q : ℕ)
      → leads (closed.calls j) ≡ some (l, q)
      → closed.store.in_flight l ≡ some q
  unfolding settle
  closed_entered j l q e =
      let (h, ne) = closed_from j e in
      elim (Option-cases (key_of r)) [
        | inl keyless ↦ ground (arith, inv.entered j l q h)
        | inr (k, key) ↦
            ground (arith, eq_iff k l, inv.entered j l q h, inv.entered i k p, inv.unique i j k l p)
      ]

  closed_old :
      (j : ℕ) (l : String) (q : ℕ) → leads (closed.calls j) ≡ some (l, q) → q < closed.store.next
  unfolding settle
  closed_old j l q e = inv.old j l q (closed_from j e).0

  closed-Woken : (q : ℕ) → Woken s q → Woken closed q
  unfolding settle
  closed-Woken q (inl e) = inl (ground arith)
  closed-Woken q (inr (j, l, e)) = elim (ℕ_discrete i j) [
    | yes same ↦ inl (ground arith)
    | no other ↦ inr (j, l, closed_leads j (λ same. other (sym same)) e)
  ]

  pub closed-Inv : Inv closed
  closed-Inv = record {
    owned = closed_owned;
    entered = closed_entered;
    unique = λ j m l n q e f. inv.unique j m l n q (closed_from j e).0 (closed_from m f).0;
    old = closed_old;
    awaited = λ j q e. closed-Woken q (ground (arith, inv.awaited j q));
  }
