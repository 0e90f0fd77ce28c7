-- ===== src/Gateway/Tests.antt =====
-- The classifier is switched to enforcement by a choice and its confirmation.
use pact_web.Prelude.{◌≡◌, refl, none, some, List, [], ◌∷◌}
use pact_web.Gateway.Config.{GatewayConfig}
use pact_web.Gateway.Enforcement.{
  EnforcementField, ConfigEnforcementPatchRequest, build_enforcement_patch, is_flip_to_enforce,
}
use pact_web.Gateway.Panel.{
  ControlsEvent, chosen, confirmed, controls_step, tile_change, controls_after, untouched,
  apply_patch, handle_mode_change, confirm_change,
}
use pact_web.Gateway.Panel.Confirmation.{question, enforces-IsConfirmed}

abbrev shadowing : GatewayConfig
shadowing = record {
  classifier_enforce_mode = some "shadow";
  compliance_shadow_enabled = none;
  consensus_mode = some "inline";
  consensus_threshold = none;
  diagnostics_enabled = none;
  request_timeout_seconds = some 30;
  sandbox_enabled = none;
  sandbox_isolation = none;
  sandbox_runtime_wrapped = none;
  spotlight_format = none;
  vector_enforce_mode = some "shadow";
}

abbrev asking : List ControlsEvent
asking = chosen shadowing EnforcementField.classifier_enforce_mode "enforce" ∷ []

abbrev enforcing : ConfigEnforcementPatchRequest
enforcing = record {
  classifier_enforce_mode = some "enforce";
  consensus_mode = none;
  vector_enforce_mode = none;
}

enforces-IsConfirmed_example :
    (◌≡◌ {A = ControlsEvent} confirmed confirmed)
    × ((field : EnforcementField) × (question asking ≡ some field)
        × (enforcing ≡ build_enforcement_patch field "enforce"))
unfolding controls_step tile_change controls_after untouched apply_patch handle_mode_change
    confirm_change build_enforcement_patch is_flip_to_enforce
enforces-IsConfirmed_example = enforces-IsConfirmed asking confirmed enforcing refl refl
