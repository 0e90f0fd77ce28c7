-- ===== src/TestLab/Attribution.antt =====
-- Which drawn layer claims a block, and what stands after it.
use mathlib.Core.Option.{some-injective}
use pact_web.Prelude.{
  ap, ◌∙◌, ℕ, zero, suc, ◌<◌, get_elem?, none-ne-some, subst, ◌≡◌, ◌≢◌, is_some, eq_iff, refl, ◌⊎◌,
  inl, inr, ◌↔◌, true, false, Option, none, some, Bool-cases, List, [], ◌∷◌, String, All, ◌==◌,
  arith,
}
use pact_web.TestLab.Wire.{CheckResponse, LayerState, LayerDecision, filter, redactor}
use pact_web.TestLab.Stages.{
  derive_layer_definitions, blocking_stage_id, cutoff_for, reason_is, blocking_stage_of,
  stage_of_reason,
}
use pact_web.TestLab.Layers.{live_layer, apply_live_layers, derive_stage_state}

abbrev pub Claims : CheckResponse → LayerState → Type 0
Claims d l =
    (l.decision ≡ LayerDecision.block)
    ↔ ((blocking_stage_id d ≡ some l.id) × (reason_is d "policy_token_denied" ≡ false))

unreachable_unmapped : (r : String) → r ≡ "classifier_unreachable" → blocking_stage_of r ≡ none
unfolding blocking_stage_of
unreachable_unmapped r e = rw e

stage_of_unreachable :
    (o : Option String)
    → elim o [ none ↦ false | some r ↦ r == "classifier_unreachable" ] ≡ true
    → stage_of_reason o ≡ none
stage_of_unreachable none h = refl
stage_of_unreachable (some r) h = unreachable_unmapped r ((eq_iff r "classifier_unreachable").0 h)

pub blocking_of_unreachable :
    (d : CheckResponse)
    → reason_is d "classifier_unreachable" ≡ true
    → (blocking_stage_id d ≡ none) ⊎ (blocking_stage_id d ≡ some filter)
unfolding blocking_stage_id
blocking_of_unreachable d h = ground (arith, stage_of_unreachable d.reason h)

pub blocking-ne-redactor : (d : CheckResponse) → blocking_stage_id d ≢ some redactor
unfolding blocking_stage_id blocking_stage_of
blocking-ne-redactor d = ground arith

-- With nothing bypassed, a drawn layer is shown as blocking exactly where it is the blocking stage
-- of the response and the policy did not deny the request.
pub block_iff :
    (prev : List LayerState) (d : CheckResponse) → All (Claims d) (apply_live_layers prev d [])
unfolding apply_live_layers live_layer derive_layer_definitions derive_stage_state cutoff_for
block_iff prev d = elim (Bool-cases (is_some d.external_refs)) [
  | inl refs ↦ rw refs (ground (arith, blocking_of_unreachable d, blocking-ne-redactor d))
  | inr bare ↦ rw bare (ground (arith, blocking_of_unreachable d, blocking-ne-redactor d))
]

-- Behind a blocked layer every layer is skipped.
abbrev SkippedAfterBlock : List LayerState → Type 0
SkippedAfterBlock [] = Unit
SkippedAfterBlock (l ∷ ls) =
    (l.decision ≡ LayerDecision.block → All (λ m. m.decision ≡ LayerDecision.skip) ls)
    × SkippedAfterBlock ls

drawn-SkippedAfterBlock :
    (prev : List LayerState) (d : CheckResponse)
    → reason_is d "classifier_unreachable" ≡ false
    → SkippedAfterBlock (apply_live_layers prev d [])
unfolding apply_live_layers live_layer derive_layer_definitions derive_stage_state cutoff_for
drawn-SkippedAfterBlock prev d reached = elim (Bool-cases (is_some d.external_refs)) [
  | inl refs ↦ rw refs (ground (arith, blocking-ne-redactor d))
  | inr bare ↦ rw bare (ground (arith, blocking-ne-redactor d))
]

All-get_elem? :
    (P : LayerState → Type 0) (ls : List LayerState) (j : ℕ) (m : LayerState)
    → All P ls
    → get_elem? ls j ≡ some m
    → P m
All-get_elem? P [] j m all e = absurd (none-ne-some m e)
All-get_elem? P (l ∷ ls) zero m all e = subst P (some-injective l m e) all.0
All-get_elem? P (l ∷ ls) (suc j) m all e = All-get_elem? P ls j m all.1 e

skipped_behind :
    (ls : List LayerState) (i j : ℕ) (l m : LayerState)
    → SkippedAfterBlock ls
    → get_elem? ls i ≡ some l
    → get_elem? ls j ≡ some m
    → i < j
    → l.decision ≡ LayerDecision.block
    → m.decision ≡ LayerDecision.skip
skipped_behind [] i j l m skipped ei ej less block = absurd (none-ne-some l ei)
skipped_behind (k ∷ ls) zero zero l m skipped ei ej less block = absurd (omega arith)
skipped_behind (k ∷ ls) zero (suc j) l m skipped ei ej less block =
    let blocks : k.decision ≡ LayerDecision.block =
      ap (λ n. n.decision) (some-injective k l ei) ∙ block in
    All-get_elem? (λ n. n.decision ≡ LayerDecision.skip) ls j m (skipped.0 blocks) ej
skipped_behind (k ∷ ls) (suc i) zero l m skipped ei ej less block = absurd (omega arith)
skipped_behind (k ∷ ls) (suc i) (suc j) l m skipped ei ej less block =
    skipped_behind ls i j l m skipped.1 ei ej (omega arith) block

-- With nothing bypassed, and a classifier that was reached, every layer that stands behind a
-- blocking one is shown as skipped.
pub skipped_after_block :
    (prev : List LayerState) (d : CheckResponse) (i j : ℕ) (l m : LayerState)
    → reason_is d "classifier_unreachable" ≡ false
    → get_elem? (apply_live_layers prev d []) i ≡ some l
    → get_elem? (apply_live_layers prev d []) j ≡ some m
    → i < j
    → l.decision ≡ LayerDecision.block
    → m.decision ≡ LayerDecision.skip
skipped_after_block prev d i j l m reached =
    skipped_behind (apply_live_layers prev d []) i j l m (drawn-SkippedAfterBlock prev d reached)
