-- ===== src/Renewal/SingleFlight.antt =====
-- A refresh token is presented by one redemption at a time, and every caller shares its outcome.
use pact_web.Prelude.{
  ℕ, ◌<◌, ◌≡◌, some, List, [], ◌∷◌, String, eq_iff, eq_refl, arith, Option-cases, inl, inr,
}
use pact_web.Renewal.{
  Renewals, RenewalEvent, ask, over, redeem_refresh_token, end_renewal, renewal_step, renewal_run,
  no_renewals,
}

pub record Inv (st : Renewals) : Type 0 where
  pub entered : (p : ℕ) (t : String) → st.out p ≡ some t → st.in_flight t ≡ some p
  pub owned : (p : ℕ) (t : String) → st.in_flight t ≡ some p → st.out p ≡ some t
  pub old : (p : ℕ) (t : String) → st.out p ≡ some t → p < st.next

no_renewals-Inv : Inv no_renewals
unfolding no_renewals
no_renewals-Inv = ground arith

ask-Inv : (st : Renewals) (token : String) → Inv st → Inv (redeem_refresh_token st token).0
unfolding redeem_refresh_token
ask-Inv st token inv = elim (Option-cases (st.in_flight token)) [
  | inr (p, joined) ↦ rw (joined, redeem_refresh_token) inv
  | inl free ↦
      rw (free, redeem_refresh_token)
        (record {
          entered = λ p t e. ground (arith, eq_iff token t, inv.entered p t);
          owned = λ p t e. ground (arith, eq_iff token t, inv.owned p t, inv.old p t);
          old = λ p t e. ground (arith, inv.old p t);
        })
]

over-Inv : (st : Renewals) (q : ℕ) → Inv st → Inv (end_renewal st q)
unfolding end_renewal
over-Inv st q inv = elim (Option-cases (st.out q)) [
  | inl gone ↦ rw (gone, end_renewal) inv
  | inr (token, out) ↦
      rw (out, end_renewal)
        (record {
          entered =
              λ p t e. ground (arith, eq_iff token t, inv.entered p t, inv.entered q token out);
          owned = λ p t e. ground (arith, eq_iff token t, inv.owned p t, eq_refl t);
          old = λ p t e. ground (arith, inv.old p t);
        })
]

run-Inv : (st : Renewals) (events : List RenewalEvent) → Inv st → Inv (renewal_run st events)
unfolding renewal_run renewal_step
run-Inv st [] inv = inv
run-Inv st (ask token ∷ events) inv =
    run-Inv (redeem_refresh_token st token).0 events (ask-Inv st token inv)
run-Inv st (over p ∷ events) inv = run-Inv (end_renewal st p) events (over-Inv st p inv)

-- After any events from the start, two redemptions that are out for one token are the same, and a
-- caller who asks for the token joins it and changes nothing.
pub one_redemption :
    (events : List RenewalEvent) (p q : ℕ) (token : String)
    → (renewal_run no_renewals events).out p ≡ some token
    → (renewal_run no_renewals events).out q ≡ some token
    → (q ≡ p)
      × (redeem_refresh_token (renewal_run no_renewals events) token
          ≡ (renewal_run no_renewals events, p))
unfolding redeem_refresh_token
one_redemption events p q token out also =
    let inv = run-Inv no_renewals events no_renewals-Inv in
    let here = inv.entered p token out in
    (ground (arith, inv.entered q token also), rw (here, redeem_refresh_token))
