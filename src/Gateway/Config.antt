-- ===== src/Gateway/Config.antt =====
-- src/app/gateway/domain/gateway_config.ts: the gateway's live configuration and its labels, with
-- the record ConfigConfigResponse of src/__codegen__/rest/config/types/configConfigResponse.ts.
use pact_web.Prelude.{ℕ, if◌then◌else◌, Bool, false, Option, none, some, String, ◌==◌}
use pact_web.Prelude.Text.{show, ◌<>◌}

pub record GatewayConfig : Type 0 where
  pub classifier_enforce_mode : Option String
  pub compliance_shadow_enabled : Option Bool
  pub consensus_mode : Option String
  pub consensus_threshold : Option ℕ
  pub diagnostics_enabled : Option Bool
  pub request_timeout_seconds : Option ℕ
  pub sandbox_enabled : Option Bool
  pub sandbox_isolation : Option String
  pub sandbox_runtime_wrapped : Option Bool
  pub spotlight_format : Option String
  pub vector_enforce_mode : Option String

abbrev pub is_enforcing : Option String → Bool
is_enforcing none = false
is_enforcing (some mode) = mode == "enforce"

abbrev pub enforce_mode_label : Option String → String
enforce_mode_label none = "Unknown"
enforce_mode_label (some mode) =
    if mode == "enforce" then "Enforce" else if mode == "shadow" then "Shadow" else mode

-- Any other isolation level or format is shown as it is.
abbrev pub sandbox_isolation_label : Option String → String
sandbox_isolation_label none = "Unknown"
sandbox_isolation_label (some isolation) =
    if isolation == "namespace"
    then "Namespace (user+mount, /proc masked)"
    else if isolation == "none"
    then "None (plain process)"
    else isolation

abbrev pub spotlight_format_label : Option String → String
spotlight_format_label none = "Unknown"
spotlight_format_label (some format) =
    if format == "delim"
    then "Delimiter markers"
    else if format == "xml"
    then "XML tags"
    else if format == "json"
    then "JSON envelope"
    else format

abbrev pub request_timeout_label : Option ℕ → String
request_timeout_label none = "--"
request_timeout_label (some seconds) = show seconds <> "s"
