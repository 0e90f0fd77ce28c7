-- ===== src/Http/RateLimit/Attempts.antt =====
-- Which attempts a run makes.
use pact_web.Prelude.{
  ℕ, suc, zero, ◌≡◌, refl, subst, eqb, ◌≤◌, ◌<◌, ◌+◌, ◌⊎◌, length, ltb, All, Bool, true, false,
  ◌&&◌, ◌||◌, not, leb, ◌∷◌, Option, some, String, arith, inl, inr, Bool-cases, [],
}
use pact_web.Prelude.Result.{Result, ok, err}
use pact_web.Http.RateLimit.{
  HttpError, is_rate_limited_error, Retried, retry_from, after_attempt, retry_on_rate_limit,
  rate_limit_max_delay_ms,
}
use pact_web.Http.RateLimit.Delays.{rate_limit_delay_ms-bound}

-- A 429, and what ends a run.
abbrev is_rate_limited {ℓ} : {A : Type ℓ} → Result HttpError A → Bool
is_rate_limited (ok value) = false
is_rate_limited (err e) = is_rate_limited_error e

module _ {ℓ} {A : Type ℓ} (date_parse : String → Option ℕ) (operation : ℕ → Result HttpError A)
    (clock : ℕ → ℕ) (max_retries base_delay_ms : ℕ) where
  -- A run from an attempt on that ends at attempt `last`.
  abbrev pub EndsAt : ℕ → ℕ → Retried A → Type ℓ
  EndsAt attempt last r =
      (attempt ≤ last)
      × (last ≤ max_retries)
      × ((j : ℕ) → attempt ≤ j → j < last → is_rate_limited (operation j) ≡ true)
      × (r.outcome ≡ some (operation last))
      × ((is_rate_limited (operation last) ≡ false) ⊎ (last ≡ max_retries))
      × (attempt + length r.pauses ≡ last)
      × All (λ pause. pause ≤ rate_limit_max_delay_ms) r.pauses

  stops :
      (attempt : ℕ) (result : Result HttpError A) (rest : Retried A)
      → (is_rate_limited result ≡ false) ⊎ (attempt ≡ max_retries)
      → after_attempt date_parse operation clock max_retries base_delay_ms attempt result rest
        ≡ record { pauses = []; outcome = some result }
  unfolding after_attempt
  stops attempt (ok value) rest last = refl
  stops attempt (err error) rest last =
      let stop : (not (is_rate_limited_error error) || leb max_retries attempt) ≡ true =
        ground arith in
      rw stop refl

  continues :
      (attempt : ℕ) (result : Result HttpError A) (rest : Retried A)
      → is_rate_limited result ≡ true
      → attempt < max_retries
      → (pause : ℕ) × (pause ≤ rate_limit_max_delay_ms)
        × (after_attempt date_parse operation clock max_retries base_delay_ms attempt result rest
            ≡ record { pauses = pause ∷ rest.pauses; outcome = rest.outcome })
  unfolding after_attempt
  continues attempt (ok value) rest limited more = absurd (ground arith)
  continues attempt (err error) rest limited more =
      let go : (not (is_rate_limited_error error) || leb max_retries attempt) ≡ false =
        ground arith in
      (
        _,
        rate_limit_delay_ms-bound date_parse attempt error.retry_after base_delay_ms
            (clock attempt),
        rw go refl,
      )

  ends_now :
      (attempt : ℕ) (rest : Retried A)
      → attempt ≤ max_retries
      → (is_rate_limited (operation attempt) ≡ false) ⊎ (attempt ≡ max_retries)
      → EndsAt attempt attempt (
          after_attempt date_parse operation clock max_retries base_delay_ms attempt
            (operation attempt)
            rest)
  ends_now attempt rest within last =
      rw (stops attempt (operation attempt) rest last)
        (omega arith, within, (λ j from below. absurd (omega arith)), refl, last, omega arith, tt)

  goes_on :
      (attempt last : ℕ) (rest : Retried A)
      → is_rate_limited (operation attempt) ≡ true
      → attempt < max_retries
      → EndsAt (suc attempt) last rest
      → EndsAt attempt last (
          after_attempt date_parse operation clock max_retries base_delay_ms attempt
            (operation attempt)
            rest)
  goes_on attempt last rest limited more (later, within, all_limited, outcome, why, paused, short) =
      let (pause, small, e) = continues attempt (operation attempt) rest limited more in
      rw e (
        omega arith,
        within,
        (λ j from below. elim (Bool-cases (eqb attempt j)) [
          | inl same ↦ subst (λ i. is_rate_limited (operation i) ≡ true) (ground arith) limited
          | inr apart ↦ all_limited j (ground arith) below
        ]),
        outcome,
        why,
        omega arith,
        (small, short),
      )

  retry_from_lem :
      (fuel attempt : ℕ)
      → attempt + fuel ≡ suc max_retries
      → attempt ≤ max_retries
      → (last : ℕ) × EndsAt attempt last
          (retry_from date_parse operation clock max_retries base_delay_ms fuel attempt)
  unfolding retry_from
  retry_from_lem zero attempt enough within = absurd (omega arith)
  retry_from_lem (suc fuel) attempt enough within =
      elim (Bool-cases (is_rate_limited (operation attempt) && ltb attempt max_retries)) [
        | inl again ↦
            let (last, ends) = retry_from_lem fuel (suc attempt) (omega arith) (ground arith) in
            (last, goes_on attempt last _ (ground arith) (ground arith) ends)
        | inr finished ↦ (attempt, ends_now attempt _ within (ground arith))
      ]

  -- A run always ends, and ends with what its last attempt gave: the attempts before were all
  -- answered 429, each followed by one pause of at most thirty seconds; the last was not, or the
  -- retries are used up.
  pub retry_on_rate_limit_lem :
      (last : ℕ) × EndsAt 0 last
        (retry_on_rate_limit date_parse operation clock max_retries base_delay_ms)
  unfolding retry_on_rate_limit
  retry_on_rate_limit_lem = retry_from_lem (suc max_retries) 0 (omega arith) (omega arith)
