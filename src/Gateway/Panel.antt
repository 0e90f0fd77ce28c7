-- ===== src/Gateway/Panel.antt =====
-- src/app/gateway/ui/GatewayEnforcementControls.tsx: the state of the enforcement controls, and
-- what each of their handlers sends.
pub mod Confirmation
use pact_web.Prelude.{
  ℕ, eqb, if◌then◌else◌, Option, none, some, or_else, get_or_else, List, [], ◌∷◌, String,
}
use pact_web.Prelude.Text.{truthy}
use pact_web.Gateway.Config.{GatewayConfig}
use pact_web.Gateway.Enforcement.{
  EnforcementField, same_field, ConfigEnforcementPatchRequest, GetConfigQueryResult, success,
  is_flip_to_enforce, build_enforcement_patch, apply_optimistic_enforcement_patch,
  enforcement_patch_error_message, current_value_for,
}

pub record PendingEnforcementChange : Type 0 where
  pub field : EnforcementField
  pub previous_value : Option String
  pub next_value : String

pub record Controls : Type 0 where
  pub pending_change : Option PendingEnforcementChange
  pub mutating_field : Option EnforcementField
  pub patch_error : Option String

unfoldable pub untouched : Controls
untouched = record { pending_change = none; mutating_field = none; patch_error = none }

-- How a request ends: with a status, or with a failure that is an `Error` with its message or is
-- not one.
pub data PatchOutcome : Type 0 where
  answered : ℕ → PatchOutcome
  thrown : Option String → PatchOutcome

-- What happens to the controls, with the configuration that they show.
pub data ControlsEvent : Type 0 where
  chosen : GatewayConfig → EnforcementField → String → ControlsEvent
  confirmed dismissed : ControlsEvent
  settled : EnforcementField → PatchOutcome → ControlsEvent

-- `optimisticData`
abbrev pub optimistic_data :
    GatewayConfig
    → Option GetConfigQueryResult
    → ConfigEnforcementPatchRequest
    → GetConfigQueryResult
optimistic_data config current payload =
    get_or_else (or_else (apply_optimistic_enforcement_patch current payload) current)
      (success config)

-- `applyPatch` up to its await, with the body that it sends.
unfoldable pub apply_patch :
    Controls → EnforcementField → String → Controls × Option ConfigEnforcementPatchRequest
apply_patch st field next_value = (
  record { pending_change = st.pending_change; mutating_field = some field; patch_error = none },
  some (build_enforcement_patch field next_value),
)

-- The error of a request: of `submitPatch` for another status than 200.
abbrev pub patch_error_of : PatchOutcome → Option String → Option String
patch_error_of (answered status) before =
    if eqb status 200 then before else some (enforcement_patch_error_message status)
patch_error_of (thrown message) before =
    some (get_or_else message "Failed to update enforcement mode.")

abbrev pub released : EnforcementField → Option EnforcementField → Option EnforcementField
released field none = none
released field (some previous) = if same_field previous field then none else some previous

-- `applyPatch` after its await.
unfoldable pub end_patch : Controls → EnforcementField → PatchOutcome → Controls
end_patch st field outcome = record {
  pending_change = st.pending_change;
  mutating_field = released field st.mutating_field;
  patch_error = patch_error_of outcome st.patch_error;
}

unfoldable pub handle_mode_change :
    Controls
    → GatewayConfig
    → EnforcementField
    → String
    → Controls × Option ConfigEnforcementPatchRequest
handle_mode_change st config field next_value =
    if is_flip_to_enforce field next_value
    then (
      record {
        pending_change = some (record {
          field = field;
          previous_value = current_value_for config field;
          next_value = next_value;
        });
        mutating_field = st.mutating_field;
        patch_error = st.patch_error;
      },
      none,
    )
    else apply_patch st field next_value

unfoldable pub confirm_change :
    Controls → Option PendingEnforcementChange → Controls × Option ConfigEnforcementPatchRequest
confirm_change st none = (st, none)
confirm_change st (some change) = apply_patch st change.field change.next_value

abbrev pub handle_confirm_enforce : Controls → Controls × Option ConfigEnforcementPatchRequest
handle_confirm_enforce st = confirm_change st st.pending_change

-- A tile's `onValueChange`: a value that is taken back is no choice.
unfoldable pub tile_change :
    Controls
    → GatewayConfig
    → EnforcementField
    → String
    → Controls × Option ConfigEnforcementPatchRequest
tile_change st config field next =
    if truthy next then handle_mode_change st config field next else (st, none)

-- The handlers that the tiles and the dialog call.
unfoldable pub controls_step :
    Controls → ControlsEvent → Controls × Option ConfigEnforcementPatchRequest
controls_step st (chosen config field next) = tile_change st config field next
controls_step st confirmed = handle_confirm_enforce st
controls_step st dismissed = (
  record {
    pending_change = none;
    mutating_field = st.mutating_field;
    patch_error = st.patch_error;
  },
  none,
)
controls_step st (settled field outcome) = (end_patch st field outcome, none)

-- The controls after a history, the latest event first.
unfoldable pub controls_after : List ControlsEvent → Controls
controls_after [] = untouched
controls_after (event ∷ history) = (controls_step (controls_after history) event).0
