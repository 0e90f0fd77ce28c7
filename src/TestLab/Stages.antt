-- ===== src/TestLab/Stages.antt =====
-- Which stages a run shows, which one blocked it, and where the pipeline stopped:
-- `deriveLayerDefinitions`, `blockingStageId` and `cutoffFor`.
use pact_web.Prelude.{
  ℕ, suc, ltb, if◌then◌else◌, Bool, true, false, ◌&&◌, not, Option, none, some, is_some, List, [],
  ◌∷◌, String, ◌==◌, map, get_elem?,
}
use pact_web.Prelude.Text.{truthy_opt}
use pact_web.TestLab.Wire.{
  CheckResponse, Decision, StageId, filter, classifier, sandbox, consensus, redactor,
}

pub record LayerDefinition : Type 0 where
  pub id : StageId
  pub label : String

abbrev pub filter_definition : LayerDefinition
filter_definition = record { id = filter; label = "Filter" }

abbrev pub classifier_definition : LayerDefinition
classifier_definition = record { id = classifier; label = "Classifier" }

abbrev pub consensus_definition : LayerDefinition
consensus_definition = record { id = consensus; label = "Consensus" }

abbrev pub redactor_definition : LayerDefinition
redactor_definition = record { id = redactor; label = "Redactor" }

abbrev pub sandbox_definition : LayerDefinition
sandbox_definition = record { id = sandbox; label = "Sandbox" }

abbrev pub layer_definitions : List LayerDefinition
layer_definitions =
    filter_definition ∷ classifier_definition ∷ consensus_definition ∷ redactor_definition ∷ []

-- The sandbox stage is shown exactly for a response with `external_refs`.
unfoldable pub derive_layer_definitions : CheckResponse → List LayerDefinition
derive_layer_definitions d =
    if not (is_some d.external_refs)
    then layer_definitions
    else filter_definition ∷ classifier_definition ∷ sandbox_definition ∷ consensus_definition
      ∷ redactor_definition ∷ []

abbrev pub order_of : CheckResponse → List StageId
order_of d = map (λ def. def.id) (derive_layer_definitions d)

abbrev pub same_stage : StageId → StageId → Bool
same_stage filter filter = true
same_stage classifier classifier = true
same_stage sandbox sandbox = true
same_stage consensus consensus = true
same_stage redactor redactor = true
same_stage _ _ = false

-- `BLOCKING_STAGE_OF`
unfoldable pub blocking_stage_of : String → Option StageId
blocking_stage_of reason =
    if reason == "filter_hostile"
    then some filter
    else if reason == "filter_suspicious_enforced"
    then some filter
    else if reason == "classifier_enforced"
    then some classifier
    else if reason == "classifier_protocol_error"
    then some classifier
    else if reason == "external_ref_hostile"
    then some sandbox
    else if reason == "external_ref_not_allowlisted"
    then some sandbox
    else if reason == "external_ref_unfetchable"
    then some sandbox
    else if reason == "consensus_enforced"
    then some consensus
    else none

-- The map read at an optional reason.
abbrev pub stage_of_reason : Option String → Option StageId
stage_of_reason none = none
stage_of_reason (some reason) = blocking_stage_of reason

abbrev pub is_block : Decision → Bool
is_block Decision.block = true
is_block Decision.allow = false

-- The signal of older gateways: a rule id without a `filter` object.
abbrev is_legacy_block : CheckResponse → Bool
is_legacy_block d = not (is_some d.filter) && truthy_opt d.filter_rule_id && is_block d.decision

unfoldable pub blocking_stage_id : CheckResponse → Option StageId
blocking_stage_id d = elim (stage_of_reason d.reason) [
  | some s ↦ some s
  | none ↦ if is_legacy_block d then some filter else none
]

abbrev pub reason_is : CheckResponse → String → Bool
reason_is d text = elim d.reason [ none ↦ false | some reason ↦ reason == text ]

-- `afterIndex`: -1, or the index of the last stage that ran.
pub data Cutoff : Type 0 where
  before_first : Cutoff
  after : ℕ → Cutoff

-- `order.indexOf(id)`, `none` for -1.
abbrev index_of : StageId → List StageId → Option ℕ
index_of s [] = none
index_of s (x ∷ xs) =
    let later = index_of s xs in
    if same_stage x s then some 0 else elim later [ none ↦ none | some i ↦ some (suc i) ]

abbrev cutoff_at : StageId → List StageId → Option Cutoff
cutoff_at s order = elim (index_of s order) [ none ↦ none | some i ↦ some (after i) ]

unfoldable pub cutoff_for : CheckResponse → List StageId → Option Cutoff
cutoff_for d order =
    if reason_is d "policy_token_denied"
    then some before_first
    else if reason_is d "classifier_unreachable"
    then cutoff_at classifier order
    else elim (blocking_stage_id d) [ none ↦ none | some s ↦ cutoff_at s order ]

-- `cutoff && i > cutoff.afterIndex`
abbrev pub is_past : Option Cutoff → ℕ → Bool
is_past none i = false
is_past (some before_first) i = true
is_past (some (after k)) i = ltb k i

-- `order[cutoff.afterIndex]`
abbrev pub halted_at : Option Cutoff → List StageId → Option StageId
halted_at (some (after k)) order = get_elem? order k
halted_at _ order = none
