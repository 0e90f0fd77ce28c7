-- ===== src/TestLab/CausalSpans.antt =====
-- Where the causal spans of a blocked request are shown.
use pact_web.Prelude.{◌≡◌, ◌≢◌, true, false, is_some, Option, none, some, List, [], ◌∷◌, arith}
use pact_web.TestLab.Wire.{CheckResponse, sandbox, LayerState, CausalSpan}
use pact_web.TestLab.Stages.{derive_layer_definitions, blocking_stage_id, cutoff_for, reason_is}
use pact_web.TestLab.Layers.{live_layer, apply_live_layers, derive_stage_state, result_causal_spans}
use pact_web.TestLab.Attribution.{blocking_of_unreachable}

abbrev present {ℓ} : {A : Type ℓ} → Option A → List A → List A
present none xs = xs
present (some a) xs = a ∷ xs

abbrev on_layers : List LayerState → List (List CausalSpan)
on_layers [] = []
on_layers (l ∷ ls) = present l.causal_spans (on_layers ls)

-- Every place where the page shows causal spans: the Result node, then the layers.
abbrev pub shown : CheckResponse → List LayerState → List (List CausalSpan)
shown d layers = present (result_causal_spans d) (on_layers layers)

-- The blocking stage, where there is one, is drawn, and the policy did not deny the request.
pub record IsDrawn (d : CheckResponse) : Type 0 where
  pub drawn : blocking_stage_id d ≡ some sandbox → is_some d.external_refs ≡ true
  pub ran : blocking_stage_id d ≢ none → reason_is d "policy_token_denied" ≡ false

-- With nothing bypassed, the causal spans of a response whose blocking stage is the sandbox, without
-- `external_refs`, are shown nowhere.
pub causal_spans_lost :
    (prev : List LayerState) (d : CheckResponse)
    → blocking_stage_id d ≡ some sandbox
    → d.external_refs ≡ none
    → shown d (apply_live_layers prev d []) ≡ []
unfolding apply_live_layers live_layer derive_layer_definitions derive_stage_state cutoff_for
    result_causal_spans
causal_spans_lost prev d b e = ground (arith, blocking_of_unreachable d)
