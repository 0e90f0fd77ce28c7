-- ===== src/Gateway/Enforcement.antt =====
-- src/app/gateway/domain/gateway_enforcement_patch.ts: what the enforcement controls write.
use pact_web.Prelude.{
  ℕ, eqb, if◌then◌else◌, Bool, true, false, ◌&&◌, ◌||◌, Option, none, some, or_else, String, ◌==◌,
  ◌≡◌, refl,
}
use pact_web.Prelude.Text.{show, ◌<>◌}
use pact_web.Gateway.Config.{GatewayConfig}

pub data EnforcementField : Type 0 where
  classifier_enforce_mode vector_enforce_mode consensus_mode : EnforcementField

abbrev pub same_field : EnforcementField → EnforcementField → Bool
same_field EnforcementField.classifier_enforce_mode EnforcementField.classifier_enforce_mode = true
same_field EnforcementField.vector_enforce_mode EnforcementField.vector_enforce_mode = true
same_field EnforcementField.consensus_mode EnforcementField.consensus_mode = true
same_field f g = false

abbrev pub consensus_mode_label : Option String → String
consensus_mode_label none = "Unknown"
consensus_mode_label (some mode) =
    if mode == "inline" then "Inline" else if mode == "shadow" then "Shadow" else mode

unfoldable pub is_flip_to_enforce : EnforcementField → String → Bool
is_flip_to_enforce field next_value =
    (same_field field EnforcementField.classifier_enforce_mode
      || same_field field EnforcementField.vector_enforce_mode)
    && (next_value == "enforce")

-- A field that is `none` is omitted from the body.
pub record ConfigEnforcementPatchRequest : Type 0 where
  pub classifier_enforce_mode : Option String
  pub consensus_mode : Option String
  pub vector_enforce_mode : Option String

unfoldable pub build_enforcement_patch : EnforcementField → String → ConfigEnforcementPatchRequest
build_enforcement_patch EnforcementField.classifier_enforce_mode value = record {
  classifier_enforce_mode = some value;
  consensus_mode = none;
  vector_enforce_mode = none;
}
build_enforcement_patch EnforcementField.vector_enforce_mode value = record {
  classifier_enforce_mode = none;
  consensus_mode = none;
  vector_enforce_mode = some value;
}
build_enforcement_patch EnforcementField.consensus_mode value = record {
  classifier_enforce_mode = none;
  consensus_mode = some value;
  vector_enforce_mode = none;
}

-- The cached answer of GET /v1/config: a configuration, or another status.
pub data GetConfigQueryResult : Type 0 where
  success : GatewayConfig → GetConfigQueryResult
  failure : ℕ → GetConfigQueryResult

-- `{ ...current.data, ...patch }`
abbrev pub merged : GatewayConfig → ConfigEnforcementPatchRequest → GatewayConfig
merged c patch = record {
  classifier_enforce_mode = or_else patch.classifier_enforce_mode c.classifier_enforce_mode;
  compliance_shadow_enabled = c.compliance_shadow_enabled;
  consensus_mode = or_else patch.consensus_mode c.consensus_mode;
  consensus_threshold = c.consensus_threshold;
  diagnostics_enabled = c.diagnostics_enabled;
  request_timeout_seconds = c.request_timeout_seconds;
  sandbox_enabled = c.sandbox_enabled;
  sandbox_isolation = c.sandbox_isolation;
  sandbox_runtime_wrapped = c.sandbox_runtime_wrapped;
  spotlight_format = c.spotlight_format;
  vector_enforce_mode = or_else patch.vector_enforce_mode c.vector_enforce_mode;
}

unfoldable pub apply_optimistic_enforcement_patch :
    Option GetConfigQueryResult → ConfigEnforcementPatchRequest → Option GetConfigQueryResult
apply_optimistic_enforcement_patch none patch = none
apply_optimistic_enforcement_patch (some (failure status)) patch = some (failure status)
apply_optimistic_enforcement_patch (some (success c)) patch = some (success (merged c patch))

abbrev pub enforcement_patch_error_message : ℕ → String
enforcement_patch_error_message status =
    if eqb status 403
    then "You do not have permission to change the enforcement mode."
    else if eqb status 400
    then "The gateway rejected that value."
    else "Failed to update enforcement mode (" <> show status <> ")."

-- `currentValueFor`: the value of a field in a configuration.
abbrev pub current_value_for : GatewayConfig → EnforcementField → Option String
current_value_for c EnforcementField.classifier_enforce_mode = c.classifier_enforce_mode
current_value_for c EnforcementField.vector_enforce_mode = c.vector_enforce_mode
current_value_for c EnforcementField.consensus_mode = c.consensus_mode

-- A control shows the new value at once in its own field, and every other field's value stays.
merged-build :
    (c : GatewayConfig) (field other : EnforcementField) (value : String)
    → current_value_for (merged c (build_enforcement_patch field value)) other
      ≡ (if same_field field other then some value else current_value_for c other)
unfolding build_enforcement_patch
merged-build c EnforcementField.classifier_enforce_mode EnforcementField.classifier_enforce_mode v =
    refl
merged-build c EnforcementField.classifier_enforce_mode EnforcementField.vector_enforce_mode v =
    refl
merged-build c EnforcementField.classifier_enforce_mode EnforcementField.consensus_mode v = refl
merged-build c EnforcementField.vector_enforce_mode EnforcementField.classifier_enforce_mode v =
    refl
merged-build c EnforcementField.vector_enforce_mode EnforcementField.vector_enforce_mode v = refl
merged-build c EnforcementField.vector_enforce_mode EnforcementField.consensus_mode v = refl
merged-build c EnforcementField.consensus_mode EnforcementField.classifier_enforce_mode v = refl
merged-build c EnforcementField.consensus_mode EnforcementField.vector_enforce_mode v = refl
merged-build c EnforcementField.consensus_mode EnforcementField.consensus_mode v = refl
