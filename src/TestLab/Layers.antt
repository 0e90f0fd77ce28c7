-- ===== src/TestLab/Layers.antt =====
-- The state of each drawn stage: `deriveStageState`, `resultCausalSpans` and `applyLiveLayers`.
use pact_web.Prelude.{
  ℕ, suc, if◌then◌else◌, Bool, true, false, ◌&&◌, not, Option, none, some, is_some, chain, List, [],
  ◌∷◌, String, includes, find, length, get_or_else,
}
use pact_web.Prelude.Text.{truthy}
use pact_web.TestLab.Wire.{
  CheckResponse, StageId, filter, classifier, sandbox, consensus, redactor, LayerDecision,
  LayerState, RedactorInfo, CausalSpan, stage_duration,
}
use pact_web.TestLab.Stages.{
  LayerDefinition, derive_layer_definitions, same_stage, is_block, blocking_stage_id, cutoff_for,
  is_past, halted_at, order_of,
}
use pact_web.TestLab.Reasons.{
  skip_reason, filter_rule_id, filter_reason, classifier_reason, sandbox_reason, consensus_reason,
  redactor_reason,
}

-- `{...def, ...blankDetail, decision}`
abbrev pub blank : StageId → String → LayerDecision → LayerState
blank id label decision = record {
  id = id;
  label = label;
  decision = decision;
  rule_id = none;
  reason = none;
  latency = none;
  confidence = none;
  classifier_label = none;
  bypassed = some false;
  redacted_span_count = none;
  redacted_span_labels = none;
  refs_scanned = none;
  refs_blocked = none;
  refs_mitigated = none;
  causal_spans = none;
}

abbrev pub causal_spans_of : CheckResponse → Option (List CausalSpan)
causal_spans_of d = chain d.diagnostics (λ g. g.causal_spans)

abbrev is_stage : Option StageId → StageId → Bool
is_stage none id = false
is_stage (some s) id = same_stage s id

unfoldable pub stage_causal_spans :
    CheckResponse → StageId → Option StageId → Option (List CausalSpan)
stage_causal_spans d id blocking = if is_stage blocking id then causal_spans_of d else none

abbrev block_or_allow : Bool → LayerDecision
block_or_allow true = LayerDecision.block
block_or_allow false = LayerDecision.allow

-- The labels that are present and not empty.
present_labels : List (Option String) → List String
present_labels [] = []
present_labels (none ∷ ls) = present_labels ls
present_labels (some l ∷ ls) = let rest = present_labels ls in if truthy l then l ∷ rest else rest

redactor_state : String → Option RedactorInfo → LayerState
unfolding present_labels
redactor_state label none =
    let b = blank redactor label LayerDecision.skip in
    record b { reason = some "Skipped - redactor status unknown" }
redactor_state label (some r) = elim r.verdict [
  | none ↦
      let b = blank redactor label LayerDecision.skip in
      record b { reason = some "Skipped - redactor status unknown" }
  | some verdict ↦
      let b = blank redactor label LayerDecision.allow in
      record b {
        reason = redactor_reason verdict r.spans;
        redacted_span_count = chain r.spans (λ spans. some (length spans));
        redacted_span_labels = some (present_labels (get_or_else r.spans []));
        latency = stage_duration r.timing;
      }
]

abbrev consensus_decision : CheckResponse → Bool → LayerDecision
consensus_decision d true = LayerDecision.block
consensus_decision d false = if is_some d.consensus then LayerDecision.allow else LayerDecision.skip

-- One stage's own state, with the definition's label.
unfoldable pub derive_stage_state : StageId → String → CheckResponse → Option StageId → LayerState
unfolding stage_causal_spans redactor_state
derive_stage_state filter label d blocking =
    let blocked = is_stage blocking filter in
    let b = blank filter label (block_or_allow blocked) in
    record b {
      rule_id = filter_rule_id d;
      reason = filter_reason d blocked;
      latency = chain d.filter (λ f. stage_duration f.timing);
      causal_spans = stage_causal_spans d filter blocking;
    }
derive_stage_state classifier label d blocking =
    let blocked = is_stage blocking classifier in
    let b = blank classifier label (block_or_allow blocked) in
    record b {
      reason = classifier_reason d blocked;
      confidence = chain d.classifier (λ c. c.score);
      classifier_label = chain d.classifier (λ c. c.label);
      latency = chain d.classifier (λ c. stage_duration c.timing);
      causal_spans = stage_causal_spans d classifier blocking;
    }
derive_stage_state sandbox label d blocking =
    let blocked = is_stage blocking sandbox in
    let b = blank sandbox label (block_or_allow blocked) in
    record b {
      reason = sandbox_reason d blocked;
      refs_scanned = chain d.external_refs (λ e. e.scanned);
      refs_blocked = chain d.external_refs (λ e. e.blocked);
      refs_mitigated = chain d.external_refs (λ e. e.mitigated);
      causal_spans = stage_causal_spans d sandbox blocking;
    }
derive_stage_state consensus label d blocking =
    let decision = consensus_decision d (is_stage blocking consensus) in
    let b = blank consensus label decision in
    record b {
      reason = consensus_reason d decision;
      latency = chain d.consensus (λ c. stage_duration c.timing);
      causal_spans = stage_causal_spans d consensus blocking;
    }
derive_stage_state redactor label d blocking = redactor_state label d.redactor

-- The spans on the Result node.
unfoldable pub result_causal_spans : CheckResponse → Option (List CausalSpan)
result_causal_spans d =
    if is_block d.decision && not (is_some (blocking_stage_id d)) then causal_spans_of d else none

abbrev pub stage_name : StageId → String
stage_name filter = "filter"
stage_name classifier = "classifier"
stage_name sandbox = "sandbox"
stage_name consensus = "consensus"
stage_name redactor = "redactor"

-- `{...def, decision: 'pending'}`: a bypassed layer without an earlier state.
abbrev pub fresh_layer : LayerDefinition → LayerState
fresh_layer def =
    let b = blank def.id def.label LayerDecision.pending in record b { bypassed = none }

-- The callback of the map in `applyLiveLayers`, at the definition with index `i`.
unfoldable pub live_layer :
    List LayerState → CheckResponse → List String → LayerDefinition → ℕ → LayerState
live_layer prev d bypass def i =
    let order = order_of d in
    let cutoff = cutoff_for d order in
    let past = blank def.id def.label LayerDecision.skip in
    let skipped = record past { reason = some (skip_reason (halted_at cutoff order) d) } in
    if includes bypass (stage_name def.id)
    then get_or_else (find (λ l. same_stage l.id def.id) prev) (fresh_layer def)
    else if is_past cutoff i
    then skipped
    else derive_stage_state def.id def.label d (blocking_stage_id d)

abbrev pub map_index {ℓ κ} : {A : Type ℓ} {B : Type κ} → (A → ℕ → B) → List A → ℕ → List B
map_index f [] i = []
map_index f (x ∷ xs) i = f x i ∷ map_index f xs (suc i)

unfoldable pub apply_live_layers : List LayerState → CheckResponse → List String → List LayerState
apply_live_layers prev d bypass =
    map_index (live_layer prev d bypass) (derive_layer_definitions d) 0
