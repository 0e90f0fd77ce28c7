-- ===== src/TestLab/Reasons.antt =====
-- The wording of each layer: `skipReason`, `filterReason`, `classifierReason`, `sandboxReason`,
-- `consensusReason` and `redactorReason`.
use pact_web.Prelude.{
  if◌then◌else◌, Bool, true, false, ◌&&◌, ◌||◌, Option, none, some, List, String, ◌==◌, chain,
  length, or_else,
}
use pact_web.Prelude.Text.{◌<>◌, truthy, truthy_opt, or_undefined, show}
use pact_web.TestLab.Wire.{
  CheckResponse, StageId, filter, classifier, sandbox, consensus, redactor, LayerDecision,
  FilterVerdict, RedactorVerdict, pass_through, redacted,
}
use pact_web.TestLab.Stages.{reason_is}

-- `STAGE_LABEL[id] ?? id`: the redactor has no label, so it is shown by its id.
stage_label : StageId → String
stage_label filter = "Filter"
stage_label classifier = "Classifier"
stage_label sandbox = "Sandbox"
stage_label consensus = "Consensus"
stage_label redactor = "redactor"

abbrev is_classifier : StageId → Bool
is_classifier classifier = true
is_classifier _ = false

unfoldable pub skip_reason : Option StageId → CheckResponse → String
unfolding stage_label
skip_reason none d = "Skipped - request denied before the pipeline ran"
skip_reason (some s) d =
    if is_classifier s && reason_is d "classifier_unreachable"
    then "Skipped - classifier unreachable, pipeline halted"
    else "Skipped - " <> stage_label s <> " blocked"

unfoldable pub filter_rule_id : CheckResponse → Option String
filter_rule_id d =
    or_else (or_undefined (chain d.filter (λ f. f.rule_id))) (or_undefined d.filter_rule_id)

abbrev is_matched : Option FilterVerdict → Bool
is_matched (some FilterVerdict.hostile) = true
is_matched (some FilterVerdict.suspicious) = true
is_matched _ = false

abbrev is_shadow : CheckResponse → Bool
is_shadow d = elim d.filter [ none ↦ false | some f ↦ f.shadow ]

-- `data.reason || text`
abbrev reason_or : CheckResponse → String → String
reason_or d text = elim d.reason [ none ↦ text | some r ↦ if truthy r then r else text ]

-- The wording without a block; the rule id is the one that `filterRuleId` found.
filter_reason_allowed : CheckResponse → Option String → Option String
filter_reason_allowed d none = none
filter_reason_allowed d (some rule) =
    if is_shadow d
    then some ("Shadow rule " <> rule <> " matched (not enforced)")
    else if is_matched (chain d.filter (λ f. f.verdict))
    then some ("Matched rule " <> rule <> " (not enforced)")
    else none

filter_reason_blocked : CheckResponse → Option String → String
filter_reason_blocked d none =
    if reason_is d "filter_suspicious_enforced"
    then "Suspicious verdict enforced under vector mode"
    else reason_or d "Filter matched"
filter_reason_blocked d (some rule) =
    if reason_is d "filter_suspicious_enforced"
    then "Suspicious verdict enforced under vector mode (rule " <> rule <> ")"
    else "Matched rule " <> rule

unfoldable pub filter_reason : CheckResponse → Bool → Option String
unfolding filter_reason_allowed filter_reason_blocked filter_rule_id
filter_reason d false = filter_reason_allowed d (filter_rule_id d)
filter_reason d true = some (filter_reason_blocked d (filter_rule_id d))

unfoldable pub is_classifier_unknown_reason : Option String → Bool
is_classifier_unknown_reason none = false
is_classifier_unknown_reason (some reason) =
    reason == "classifier_unknown_label" || reason == "classifier_unknown"

unfoldable pub classifier_reason : CheckResponse → Bool → Option String
unfolding is_classifier_unknown_reason
classifier_reason d blocked =
    if is_classifier_unknown_reason d.reason
    then some "Classifier declined to score - fail open"
    else if reason_is d "classifier_unreachable"
    then some "Classifier unreachable - fail open"
    else if reason_is d "classifier_protocol_error"
    then some "Classifier returned an unrecognised label - fail closed"
    else if truthy_opt (chain d.classifier (λ c. c.label))
    then (if blocked
        then some (reason_or d "Blocked by classifier")
        else if reason_is d "classifier_mitigated"
        then some "Tagged, then cleared by a PII-redaction re-check"
        else if reason_is d "classifier_tagged"
        then some "Tagged by classifier (deferred to consensus)"
        else none)
    else none

unfoldable pub sandbox_reason : CheckResponse → Bool → Option String
sandbox_reason d false = none
sandbox_reason d true =
    if reason_is d "external_ref_hostile"
    then some "A scanned reference was hostile"
    else if reason_is d "external_ref_not_allowlisted"
    then some "A scanned reference was not allow-listed"
    else if reason_is d "external_ref_unfetchable"
    then some "A scanned reference could not be fetched"
    else d.reason

unfoldable pub consensus_reason : CheckResponse → LayerDecision → Option String
unfolding is_classifier_unknown_reason
consensus_reason d LayerDecision.block = some "Consensus vote confirmed malicious content"
consensus_reason d LayerDecision.skip =
    if is_classifier_unknown_reason d.reason
    then some "Skipped - classifier declined to score"
    else some "Skipped - confidence above threshold, or consensus not configured"
consensus_reason d _ = none

-- The verdict and the spans of the redactor object.
unfoldable pub redactor_reason : RedactorVerdict → Option (List (Option String)) → Option String
redactor_reason redacted spans =
    some ("Redacted " <> show (elim spans [ none ↦ 0 | some l ↦ length l ]) <> " span(s)")
redactor_reason RedactorVerdict.unknown spans =
    some "Redactor unreachable - fail open, content unmodified"
redactor_reason pass_through spans = none
