-- ===== src/Renewal/Tests.antt =====
-- A redemption that a second caller joins.
use pact_web.Prelude.{ℕ, ◌≡◌, refl, List, [], ◌∷◌}
use pact_web.Renewal.{
  RenewalEvent, ask, over, renewal_run, renewal_step, no_renewals, redeem_refresh_token,
  end_renewal,
}
use pact_web.Renewal.SingleFlight.{one_redemption}

-- One token is asked for and redeemed, and then asked for again.
abbrev asked_again : List RenewalEvent
asked_again = ask "r0" ∷ over 0 ∷ ask "r0" ∷ []

one_redemption_example :
    (◌≡◌ {A = ℕ} 1 1)
    × (redeem_refresh_token (renewal_run no_renewals asked_again) "r0"
        ≡ (renewal_run no_renewals asked_again, 1))
unfolding renewal_run renewal_step no_renewals redeem_refresh_token end_renewal
one_redemption_example = one_redemption asked_again 1 1 "r0" refl refl
