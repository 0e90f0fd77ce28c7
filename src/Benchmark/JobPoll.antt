-- ===== src/Benchmark/JobPoll.antt =====
-- src/app/benchmark/domain/benchmark_job_poll.ts: how a job's page reads the answers to its polls.
pub mod Delays
use pact_web.Prelude.{
  ℕ, suc, eqb, max, if◌then◌else◌, Bool, false, Option, none, some, chain, String, ◌==◌,
}
use pact_web.Http.RateLimit.{rate_limited_status, rate_limit_delay_ms}

-- A poll's response, with the status of the job where there is one, and Retry-After.
pub record JobResponse : Type 0 where
  pub status : ℕ
  pub job_status : String
  pub retry_after : Option String

pub data PollDescription : Type 0 where
  polling : PollDescription
  waiting : ℕ → PollDescription
  not_found done failed : PollDescription

unfoldable pub describe_benchmark_job_poll : Option JobResponse → PollDescription
describe_benchmark_job_poll none = PollDescription.polling
describe_benchmark_job_poll (some latest) =
    if eqb latest.status 200
    then if latest.job_status == "done"
      then PollDescription.done
      else if latest.job_status == "error"
      then PollDescription.failed
      else PollDescription.polling
    else if eqb latest.status 404
    then PollDescription.not_found
    else PollDescription.waiting latest.status

abbrev is_rate_limited : PollDescription → Bool
is_rate_limited (PollDescription.waiting status) = eqb status rate_limited_status
is_rate_limited description = false

unfoldable pub next_rate_limit_retry_count : ℕ → Option JobResponse → ℕ
next_rate_limit_retry_count current latest =
    if is_rate_limited (describe_benchmark_job_poll latest) then suc current else 0

abbrev job_poll_interval_ms : ℕ
job_poll_interval_ms = 2000

abbrev job_poll_rate_limit_base_ms : ℕ
job_poll_rate_limit_base_ms = 5000

-- `latest?.headers?.get('retry-after')`
abbrev retry_after_of : Option JobResponse → Option String
retry_after_of none = none
retry_after_of (some latest) = latest.retry_after

module _ (date_parse : String → Option ℕ) (now : ℕ) where
  -- The delay for a description, with the header that the response carries.
  unfoldable pub delay_for : PollDescription → Option String → ℕ
  delay_for PollDescription.polling retry_after = job_poll_interval_ms
  delay_for (PollDescription.waiting status) retry_after =
      let delay = rate_limit_delay_ms date_parse 0 retry_after job_poll_rate_limit_base_ms now in
      if eqb status rate_limited_status
      then max job_poll_interval_ms delay
      else job_poll_interval_ms
  delay_for PollDescription.not_found retry_after = 0
  delay_for PollDescription.done retry_after = 0
  delay_for PollDescription.failed retry_after = 0

  unfoldable pub next_benchmark_job_poll_delay_ms : Option JobResponse → ℕ
  next_benchmark_job_poll_delay_ms latest =
      delay_for (describe_benchmark_job_poll latest) (retry_after_of latest)
