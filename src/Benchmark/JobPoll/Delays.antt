-- ===== src/Benchmark/JobPoll/Delays.antt =====
-- When a job's page polls again.
use pact_web.Prelude.{ℕ, ◌≤◌, ◌≡◌, ◌⊎◌, inr, refl, Option, none, some, String, eq_iff, arith}
use pact_web.Http.RateLimit.Delays.{rate_limit_delay_ms-bound}
use pact_web.Benchmark.JobPoll.{
  JobResponse, PollDescription, describe_benchmark_job_poll, delay_for,
  next_benchmark_job_poll_delay_ms,
}

-- A response after which nothing is left to learn: the job is done or has failed, or there is no
-- such job.
abbrev pub IsLast : Option JobResponse → Type 0
IsLast none = ⊥
IsLast (some r) =
    ((r.status ≡ 200) × ((r.job_status ≡ "done") ⊎ (r.job_status ≡ "error"))) ⊎ (r.status ≡ 404)

-- A response that asks for a slower pace.
abbrev pub IsLimited : Option JobResponse → Type 0
IsLimited none = ⊥
IsLimited (some r) = r.status ≡ 429

-- The delays that a response leads to.
abbrev pub IsPace : Option JobResponse → ℕ → Type 0
IsPace latest delay =
    (IsLast latest × (delay ≡ 0))
    ⊎ ((IsLimited latest × (2000 ≤ delay) × (delay ≤ 30000))
        ⊎ ((¬ IsLast latest) × (¬ IsLimited latest) × (delay ≡ 2000)))

module _ (date_parse : String → Option ℕ) (now : ℕ) where
  waiting-limited :
      (retry_after : Option String)
      → (2000 ≤ delay_for date_parse now (PollDescription.waiting 429) retry_after)
        × (delay_for date_parse now (PollDescription.waiting 429) retry_after ≤ 30000)
  unfolding delay_for
  waiting-limited retry_after =
      let bound = rate_limit_delay_ms-bound date_parse 0 retry_after 5000 now in
      (omega arith, omega (arith, bound))

  -- After the answer that a job is done or has failed, or that there is none, there is no further
  -- poll; after a 429 the next one comes in two to thirty seconds, whatever Retry-After says; after
  -- any other answer, an absent one included, it comes in two seconds.
  pub next_benchmark_job_poll_delay_ms-IsPace :
      (latest : Option JobResponse)
      → IsPace latest (next_benchmark_job_poll_delay_ms date_parse now latest)
  unfolding next_benchmark_job_poll_delay_ms describe_benchmark_job_poll delay_for
  next_benchmark_job_poll_delay_ms-IsPace none = inr (inr ((λ z. z), (λ z. z), refl))
  next_benchmark_job_poll_delay_ms-IsPace (some r) = ground (
    arith,
    eq_iff r.job_status "done",
    eq_iff r.job_status "error",
    waiting-limited r.retry_after,
  )
