-- ===== src/Http/Tests.antt =====
-- Runs of the retry loop.
use pact_web.Prelude.{ℕ, eqb, if◌then◌else◌, Option, none, some, String}
use pact_web.Prelude.Result.{Result, ok, err}
use pact_web.Http.RateLimit.{
  HttpError, retry_on_rate_limit, default_max_retries, default_base_delay_ms,
}
use pact_web.Http.RateLimit.Attempts.{EndsAt, retry_on_rate_limit_lem}

-- No text is a date.
abbrev no_dates : String → Option ℕ
no_dates text = none

abbrev limited : HttpError
limited = record { status = some 429; retry_after = some "120" }

-- The third attempt succeeds.
abbrev third_time : ℕ → Result HttpError ℕ
third_time attempt = if eqb attempt 2 then ok 7 else err limited

retry_on_rate_limit_lem_example :
    (last : ℕ) × EndsAt no_dates third_time
      (λ attempt. 0)
      default_max_retries
      default_base_delay_ms
      0
      last
      (retry_on_rate_limit no_dates third_time
        (λ attempt. 0)
        default_max_retries
        default_base_delay_ms)
retry_on_rate_limit_lem_example =
    retry_on_rate_limit_lem no_dates third_time (λ attempt. 0) default_max_retries
      default_base_delay_ms
