-- ===== src/TestLab/Tests.antt =====
-- A request that the filter blocked, one that the sandbox blocked, and a persisted run.
use pact_web.Prelude.{◌≡◌, ◌↔◌, refl, none, some, List, [], ◌∷◌, String, All}
use pact_web.Prelude.Json.{Fields, obj, str, num, end, field}
use pact_web.Prelude.Result.{ok}
use pact_web.TestLab.Wire.{CheckResponse, Decision, CausalSpan}
use pact_web.TestLab.Stages.{blocking_stage_id, blocking_stage_of}
use pact_web.TestLab.Layers.{apply_live_layers}
use pact_web.TestLab.Attribution.{Claims, block_iff}
use pact_web.TestLab.CausalSpans.{shown, causal_spans_lost}
use pact_web.TestLab.Parse.{parse_check_response}
use pact_web.TestLab.Parse.Contract.{IsWellFormed}
use pact_web.TestLab.Parse.WellFormed.{parse_check_response_iff}
use pact_web.TestLab.Runs.{TestLabRunRecord}

abbrev spans : List CausalSpan
spans = record { start = some 3; stop = some 9 } ∷ []

abbrev blocked_for : String → CheckResponse
blocked_for reason = record {
  decision = Decision.block;
  reason = some reason;
  filter_rule_id = some "R-12";
  filter = none;
  classifier = none;
  consensus = none;
  redactor = none;
  external_refs = none;
  diagnostics = some (record { causal_spans = some spans });
}

block_iff_example :
    All
      (Claims (blocked_for "filter_hostile"))
      (apply_live_layers [] (blocked_for "filter_hostile") [])
block_iff_example = block_iff [] (blocked_for "filter_hostile")

causal_spans_lost_example :
    shown
      (blocked_for "external_ref_hostile")
      (apply_live_layers [] (blocked_for "external_ref_hostile") [])
    ≡ []
unfolding blocking_stage_id blocking_stage_of
causal_spans_lost_example = causal_spans_lost [] (blocked_for "external_ref_hostile") refl refl

abbrev body : Fields
body =
    field "decision" (str "allow") (field "latency_ms" (num 3) (field "request_id" (str "q1") end))

parse_check_response_iff_example :
    (parse_check_response (obj body) ≡ ok body) ↔ ((obj body ≡ obj body) × IsWellFormed body)
parse_check_response_iff_example = parse_check_response_iff (obj body) body

abbrev row : TestLabRunRecord
row = record {
  id = "1";
  content = "hello";
  attack_type = "none";
  latency_ms = 12;
  created_at = 1;
  status = some "ok";
  decision = some "block";
  error = none;
  reason = some "filter_hostile";
  filter_rule_id = none;
}
