-- ===== src/Http/RateLimit.antt =====
-- src/framework/http/rate_limit_retry.ts: the back-off after a 429. `Date.parse` is a parameter: it
-- gives milliseconds since 1970, a date before that counting as 0, or none for its NaN. The clock
-- is one too. `Number` of digits is exact here; the clamp makes that no difference.
pub mod Delays
pub mod Attempts
use Prim.Native.Char.{Char, code}
use Prim.Native.String.{[], ◌∷◌}
use pact_web.Prelude.{
  ℕ, zero, suc, ◌+◌, ◌-◌, ◌*◌, ◌^◌, min, eqb, leb, not, if◌then◌else◌, Bool, true, false, ◌&&◌,
  ◌||◌, Option, none, some, chain, get_or_else, List, [], ◌∷◌, String,
}
use pact_web.Prelude.Text.{truthy}
use pact_web.Prelude.Trim.{trim}
use pact_web.Prelude.Result.{Result, ok, err}

abbrev pub rate_limited_status : ℕ
rate_limited_status = 429

abbrev pub rate_limit_max_delay_ms : ℕ
rate_limit_max_delay_ms = 30000

abbrev pub default_max_retries : ℕ
default_max_retries = 8

abbrev pub default_base_delay_ms : ℕ
default_base_delay_ms = 500

-- `[0-9]`
abbrev digit_value : Char → Option ℕ
digit_value c = if leb b'0' (code c) && leb (code c) b'9' then some (code c - b'0') else none

-- `/^\d+$/.test(s)` and `Number(s)`, behind the digits that are read.
digits_from : ℕ → String → Option ℕ
digits_from n [] = some n
digits_from n (c ∷ s) = elim (digit_value c) [ none ↦ none | some d ↦ digits_from (10 * n + d) s ]

unfoldable pub delta_seconds : String → Option ℕ
unfolding digits_from
delta_seconds [] = none
delta_seconds (c ∷ s) = digits_from 0 (c ∷ s)

-- `HTTP_DATE_PATTERN`: the first character is a letter.
unfoldable pub is_http_date : String → Bool
is_http_date [] = false
is_http_date (c ∷ s) =
    leb b'A' (code c) && leb (code c) b'Z' || leb b'a' (code c) && leb (code c) b'z'

-- A thrown error: its `status` and the Retry-After header that it carries.
pub record HttpError : Type 0 where
  pub status : Option ℕ
  pub retry_after : Option String

unfoldable pub is_rate_limited_error : HttpError → Bool
is_rate_limited_error e = elim e.status [
  | none ↦ false
  | some status ↦ eqb status rate_limited_status
]

-- How a run of `retryOnRateLimit` ends, and the pauses that it made.
pub record Retried {ℓ} (A : Type ℓ) : Type ℓ where
  pub pauses : List ℕ
  pub outcome : Option (Result HttpError A)

module _ (date_parse : String → Option ℕ) where
  -- Behind the trimming.
  unfoldable pub retry_after_ms : String → ℕ → Option ℕ
  retry_after_ms trimmed now = elim (delta_seconds trimmed) [
    | some seconds ↦ some (min (seconds * 1000) rate_limit_max_delay_ms)
    | none ↦
        if is_http_date trimmed
        then elim (date_parse trimmed) [
          | none ↦ none
          | some date ↦ some (min (date - now) rate_limit_max_delay_ms)
        ]
        else none
  ]

  unfoldable pub parse_retry_after_ms : Option String → ℕ → Option ℕ
  parse_retry_after_ms none now = none
  parse_retry_after_ms (some value) now =
      let trimmed = trim value in if truthy trimmed then retry_after_ms trimmed now else none

  unfoldable pub rate_limit_delay_ms : ℕ → Option String → ℕ → ℕ → ℕ
  rate_limit_delay_ms attempt retry_after base_delay_ms now =
      get_or_else (parse_retry_after_ms retry_after now)
        (min (base_delay_ms * 2 ^ attempt) rate_limit_max_delay_ms)

  module _ {ℓ} {A : Type ℓ} (operation : ℕ → Result HttpError A) (clock : ℕ → ℕ)
      (max_retries base_delay_ms : ℕ) where
    -- What the end of an attempt leads to, `rest` being the run of the next attempts.
    unfoldable pub after_attempt : ℕ → Result HttpError A → Retried A → Retried A
    after_attempt attempt (ok value) rest = record { pauses = []; outcome = some (ok value) }
    after_attempt attempt (err error) rest =
        if not (is_rate_limited_error error) || leb max_retries attempt
        then record { pauses = []; outcome = some (err error) }
        else record {
          pauses =
              rate_limit_delay_ms attempt error.retry_after base_delay_ms (clock attempt)
              ∷ rest.pauses;
          outcome = rest.outcome;
        }

    -- The `for` loop from an attempt on, on fuel: how the attempts end, and the clock at each.
    unfoldable pub retry_from : ℕ → ℕ → Retried A
    retry_from zero attempt = record { pauses = []; outcome = none }
    retry_from (suc fuel) attempt =
        after_attempt attempt (operation attempt) (retry_from fuel (suc attempt))

    unfoldable pub retry_on_rate_limit : Retried A
    retry_on_rate_limit = retry_from (suc max_retries) 0
