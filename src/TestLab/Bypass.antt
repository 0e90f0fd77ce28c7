-- ===== src/TestLab/Bypass.antt =====
-- Bypassed stages keep their earlier state, and the drawn stages never change place.
use pact_web.Prelude.{
  ℕ, suc, ◌≡◌, ap, ◌∙◌, refl, inl, inr, Bool-cases, true, false, is_some, Option, some, List, [],
  ◌∷◌, String, arith, map, find, includes, get_or_else,
}
use pact_web.TestLab.Wire.{CheckResponse, StageId, LayerState}
use pact_web.TestLab.Stages.{
  LayerDefinition, blocking_stage_id, derive_layer_definitions, order_of, same_stage,
  filter_definition, classifier_definition, sandbox_definition, consensus_definition,
  redactor_definition, layer_definitions,
}
use pact_web.TestLab.Layers.{
  live_layer, apply_live_layers, derive_stage_state, fresh_layer, map_index, stage_name,
}

same_stage-eq : (s t : StageId) → same_stage s t ≡ true → s ≡ t
same_stage-eq s t h = ground arith

same_stage_refl : (s : StageId) → same_stage s s ≡ true
same_stage_refl s = ground arith

find-id :
    (id : StageId) (prev : List LayerState) (fresh : LayerState)
    → fresh.id ≡ id
    → (get_or_else (find (λ l. same_stage l.id id) prev) fresh).id ≡ id
find-id id [] fresh h = h
find-id id (l ∷ ls) fresh h = ground (arith, find-id id ls fresh h, same_stage-eq l.id id)

derive_stage_state-id :
    (id : StageId) (label : String) (d : CheckResponse) (b : Option StageId)
    → (derive_stage_state id label d b).id ≡ id
unfolding derive_stage_state
derive_stage_state-id id label d b = ground arith

live_layer-id :
    (prev : List LayerState) (d : CheckResponse) (bypass : List String) (def : LayerDefinition)
    (i : ℕ)
    → (live_layer prev d bypass def i).id ≡ def.id
unfolding live_layer
live_layer-id prev d bypass def i = ground (
  arith,
  find-id def.id prev (fresh_layer def) refl,
  derive_stage_state-id def.id def.label d (blocking_stage_id d),
)

map_index-id :
    (prev : List LayerState) (d : CheckResponse) (bypass : List String)
    (defs : List LayerDefinition) (i : ℕ)
    → map (λ l. l.id) (map_index (live_layer prev d bypass) defs i) ≡ map (λ def. def.id) defs
map_index-id prev d bypass [] i = refl
map_index-id prev d bypass (def ∷ defs) i =
    cc (live_layer-id prev d bypass def i, map_index-id prev d bypass defs (suc i))

-- Whatever the previous layers and the bypassed stages, the layers that result are those of the
-- response, in order.
apply_live_layers-id :
    (prev : List LayerState) (d : CheckResponse) (bypass : List String)
    → map (λ l. l.id) (apply_live_layers prev d bypass) ≡ order_of d
unfolding apply_live_layers
apply_live_layers-id prev d bypass = map_index-id prev d bypass (derive_layer_definitions d) 0

live_layer_bypassed :
    (prev : List LayerState) (d : CheckResponse) (bypass : List String) (def : LayerDefinition)
    (i : ℕ)
    → includes bypass (stage_name def.id) ≡ true
    → live_layer prev d bypass def i
      ≡ get_or_else (find (λ l. same_stage l.id def.id) prev) (fresh_layer def)
unfolding live_layer
live_layer_bypassed prev d bypass def i kept = rw kept

live_layer_drawn :
    (earlier prev : List LayerState) (d : CheckResponse) (bypass : List String)
    (def : LayerDefinition) (i : ℕ)
    → includes bypass (stage_name def.id) ≡ false
    → live_layer earlier d bypass def i ≡ live_layer prev d bypass def i
unfolding live_layer
live_layer_drawn earlier prev d bypass def i drawn = rw drawn

-- A layer that the earlier list holds under its id is drawn again as it was.
live_layer_again :
    (earlier prev : List LayerState) (d : CheckResponse) (bypass : List String)
    (def : LayerDefinition) (i : ℕ)
    → find (λ l. same_stage l.id def.id) earlier ≡ some (live_layer prev d bypass def i)
    → live_layer earlier d bypass def i ≡ live_layer prev d bypass def i
live_layer_again earlier prev d bypass def i found =
    elim (Bool-cases (includes bypass (stage_name def.id))) [
      | inl kept ↦
          live_layer_bypassed earlier d bypass def i kept
          ∙ ap (λ o. get_or_else o (fresh_layer def)) found
      | inr drawn ↦ live_layer_drawn earlier prev d bypass def i drawn
    ]

abbrev definitions_with_sandbox : List LayerDefinition
definitions_with_sandbox =
    filter_definition ∷ classifier_definition ∷ sandbox_definition ∷ consensus_definition
    ∷ redactor_definition ∷ []

module _ (prev : List LayerState) (d : CheckResponse) (bypass : List String) where
  abbrev drawn : List LayerDefinition → List LayerState
  drawn defs = map_index (live_layer prev d bypass) defs 0

  again :
      (earlier : List LayerState) (def : LayerDefinition) (i : ℕ)
      → find (λ l. same_stage l.id def.id) earlier ≡ some (live_layer prev d bypass def i)
      → live_layer earlier d bypass def i ≡ live_layer prev d bypass def i
  again earlier = live_layer_again earlier prev d bypass

  drawn_again_with_sandbox :
      map_index (live_layer (drawn definitions_with_sandbox) d bypass) definitions_with_sandbox 0
      ≡ drawn definitions_with_sandbox
  drawn_again_with_sandbox =
      let l = drawn definitions_with_sandbox in
      cc (
        again l filter_definition 0 (simp live_layer-id),
        again l classifier_definition 1 (simp live_layer-id),
        again l sandbox_definition 2 (simp live_layer-id),
        again l consensus_definition 3 (simp live_layer-id),
        again l redactor_definition 4 (simp live_layer-id),
      )

  drawn_again :
      map_index (live_layer (drawn layer_definitions) d bypass) layer_definitions 0
      ≡ drawn layer_definitions
  drawn_again =
      let l = drawn layer_definitions in
      cc (
        again l filter_definition 0 (simp live_layer-id),
        again l classifier_definition 1 (simp live_layer-id),
        again l consensus_definition 2 (simp live_layer-id),
        again l redactor_definition 3 (simp live_layer-id),
      )

-- Applying one response twice, with the same stages bypassed, is applying it once.
pub apply_live_layers_idem :
    (prev : List LayerState) (d : CheckResponse) (bypass : List String)
    → apply_live_layers (apply_live_layers prev d bypass) d bypass ≡ apply_live_layers prev d bypass
unfolding apply_live_layers derive_layer_definitions
apply_live_layers_idem prev d bypass = elim (Bool-cases (is_some d.external_refs)) [
  | inl refs ↦ rw refs (drawn_again_with_sandbox prev d bypass)
  | inr bare ↦ rw bare (drawn_again prev d bypass)
]
