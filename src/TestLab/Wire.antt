-- ===== src/TestLab/Wire.antt =====
-- The typed /v1/check response (`CheckResponse`) and the layer state that the UI renders
-- (src/app/test_lab/ui/types.ts). Optional fields are `Option`. Scores are scaled to whole
-- numbers: they are only copied.
use pact_web.Prelude.{ℕ, ◌*◌, ltb, if◌then◌else◌, Bool, Option, none, some, List, String}

pub data Decision : Type 0 where
  allow block : Decision

pub data FilterVerdict : Type 0 where
  safe suspicious hostile unknown : FilterVerdict

pub data RedactorVerdict : Type 0 where
  pass_through redacted unknown : RedactorVerdict

-- The timing fields of a stage: `duration_ms` and `duration_us`.
pub record StageTiming : Type 0 where
  pub duration_ms : Option ℕ
  pub duration_us : Option ℕ

pub record FilterInfo : Type 0 where
  pub rule_id : Option String
  pub shadow : Bool
  pub verdict : Option FilterVerdict
  pub timing : StageTiming

pub record ClassifierInfo : Type 0 where
  pub label : Option String
  pub score : Option ℕ
  pub timing : StageTiming

pub record ConsensusInfo : Type 0 where
  pub timing : StageTiming

pub record RedactorInfo : Type 0 where
  -- the label of each redacted span
  pub spans : Option (List (Option String))
  pub verdict : Option RedactorVerdict
  pub timing : StageTiming

pub record ExternalRefsInfo : Type 0 where
  pub scanned : Option ℕ
  pub blocked : Option ℕ
  pub mitigated : Option ℕ

pub record CausalSpan : Type 0 where
  pub start : Option ℕ
  pub stop : Option ℕ

pub record DiagnosticsInfo : Type 0 where
  pub causal_spans : Option (List CausalSpan)

pub record CheckResponse : Type 0 where
  pub decision : Decision
  pub reason : Option String
  pub filter_rule_id : Option String
  pub filter : Option FilterInfo
  pub classifier : Option ClassifierInfo
  pub consensus : Option ConsensusInfo
  pub redactor : Option RedactorInfo
  pub external_refs : Option ExternalRefsInfo
  pub diagnostics : Option DiagnosticsInfo

-- The stages that the Test Lab draws. The source types an id as a string and casts it to this set.
pub data StageId : Type 0 where
  filter classifier sandbox consensus redactor : StageId

pub data LayerDecision : Type 0 where
  allow block skip pending : LayerDecision

-- A latency is in microseconds, where the source has fractional milliseconds.
pub record LayerState : Type 0 where
  pub id : StageId
  pub label : String
  pub decision : LayerDecision
  pub rule_id : Option String
  pub reason : Option String
  pub latency : Option ℕ
  pub confidence : Option ℕ
  pub classifier_label : Option String
  pub bypassed : Option Bool
  pub redacted_span_count : Option ℕ
  pub redacted_span_labels : Option (List String)
  pub refs_scanned : Option ℕ
  pub refs_blocked : Option ℕ
  pub refs_mitigated : Option ℕ
  pub causal_spans : Option (List CausalSpan)

-- A duration counts only above zero; whole numbers are finite.
usable_duration : ℕ → Option ℕ
usable_duration value = if ltb 0 value then some value else none

usable_ms : Option ℕ → Option ℕ
usable_ms none = none
usable_ms (some ms) = if ltb 0 ms then some (ms * 1000) else none

timing_us : Option ℕ → Option ℕ → Option ℕ
timing_us none ms = usable_ms ms
timing_us (some us) ms = usable_duration us

-- `stageDurationMs`, in microseconds: `duration_us` wins where it is present, zero or not.
unfoldable pub stage_duration : StageTiming → Option ℕ
unfolding timing_us usable_ms usable_duration
stage_duration timing = timing_us timing.duration_us timing.duration_ms
