-- ===== src/Http/RateLimit/Delays.antt =====
-- How long a pause is.
use pact_web.Prelude.{
  ℕ, ◌≡◌, ◌≤◌, Option, none, some, none-ne-some, String, arith, Option-cases, inl, inr, Bool-cases,
}
use pact_web.Prelude.Text.{truthy}
use pact_web.Prelude.Trim.{trim}
use pact_web.Http.RateLimit.{
  rate_limit_max_delay_ms, retry_after_ms, parse_retry_after_ms, rate_limit_delay_ms,
}

module _ (date_parse : String → Option ℕ) where
  retry_after_ms-bound :
      (text : String) (now delay : ℕ)
      → retry_after_ms date_parse text now ≡ some delay
      → delay ≤ rate_limit_max_delay_ms
  unfolding retry_after_ms
  retry_after_ms-bound text now delay e = ground arith

  parse_retry_after_ms-bound :
      (value : Option String) (now delay : ℕ)
      → parse_retry_after_ms date_parse value now ≡ some delay
      → delay ≤ rate_limit_max_delay_ms
  unfolding parse_retry_after_ms
  parse_retry_after_ms-bound none now delay e = absurd (none-ne-some delay e)
  parse_retry_after_ms-bound (some value) now delay e = elim (Bool-cases (truthy (trim value))) [
    | inl full ↦ retry_after_ms-bound (trim value) now delay (ground arith)
    | inr blank ↦ absurd (none-ne-some delay (ground arith))
  ]

  -- Whatever the header holds and whatever the clock says, a pause is at most thirty seconds.
  pub rate_limit_delay_ms-bound :
      (attempt : ℕ) (retry_after : Option String) (base_delay_ms now : ℕ)
      → rate_limit_delay_ms date_parse attempt retry_after base_delay_ms now
        ≤ rate_limit_max_delay_ms
  unfolding rate_limit_delay_ms
  rate_limit_delay_ms-bound attempt retry_after base_delay_ms now =
      elim (Option-cases (parse_retry_after_ms date_parse retry_after now)) [
        | inl absent ↦ rw (absent, rate_limit_delay_ms) (omega arith)
        | inr (delay, parsed) ↦
            rw (parsed, rate_limit_delay_ms)
              (parse_retry_after_ms-bound retry_after now delay parsed)
      ]
