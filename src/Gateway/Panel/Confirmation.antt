-- ===== src/Gateway/Panel/Confirmation.antt =====
-- Enforcement is switched on only by the dialog's confirmation, for the field that it asks about.
use pact_web.Prelude.{
  ◌≡◌, refl, ap, sym, subst, ◌∙◌, if◌then◌else◌, Bool-cases, Bool, true, false, ◌||◌, Option, none,
  some, none-ne-some, inl, inr, List, [], ◌∷◌, String, eq_iff, arith,
}
use pact_web.Prelude.Text.{truthy}
use pact_web.Gateway.Config.{GatewayConfig, is_enforcing}
use pact_web.Gateway.Enforcement.{
  EnforcementField, ConfigEnforcementPatchRequest, is_flip_to_enforce, build_enforcement_patch,
  current_value_for,
}
use pact_web.Gateway.Panel.{
  Controls, PendingEnforcementChange, ControlsEvent, chosen, confirmed, dismissed, settled,
  untouched, apply_patch, end_patch, handle_mode_change, confirm_change, controls_step, tile_change,
  controls_after,
}

-- The question that the dialog shows after an event, where it showed `asked` before.
abbrev asks : ControlsEvent → Option EnforcementField → Option EnforcementField
asks (chosen config field next) asked = if is_flip_to_enforce field next then some field else asked
asks confirmed asked = asked
asks dismissed asked = none
asks (settled field outcome) asked = asked

-- The question after a history, the latest event first: about the field that was last switched to
-- "enforce", where the dialog was not dismissed since.
unfoldable pub question : List ControlsEvent → Option EnforcementField
question [] = none
question (event ∷ history) = asks event (question history)

-- A body that switches the classifier or the vector filter to enforcement.
abbrev pub enforces : ConfigEnforcementPatchRequest → Bool
enforces patch =
    is_enforcing patch.classifier_enforce_mode || is_enforcing patch.vector_enforce_mode

-- The pending change is the one that the question is about.
abbrev Pends : Option EnforcementField → Option PendingEnforcementChange → Type 0
Pends none pending = pending ≡ none
Pends (some field) pending =
    (before : Option String) × (pending
      ≡ some (record { field = field; previous_value = before; next_value = "enforce" }))

flip-enforce : (f : EnforcementField) (v : String) → is_flip_to_enforce f v ≡ true → v ≡ "enforce"
unfolding is_flip_to_enforce
flip-enforce f v flips = ground (arith, eq_iff v "enforce")

enforces-build :
    (f : EnforcementField) (v : String)
    → enforces (build_enforcement_patch f v) ≡ is_flip_to_enforce f v
unfolding build_enforcement_patch is_flip_to_enforce
enforces-build EnforcementField.classifier_enforce_mode v = ground arith
enforces-build EnforcementField.vector_enforce_mode v = ground arith
enforces-build EnforcementField.consensus_mode v = ground arith

confirm-pending :
    (st : Controls) (pending : Option PendingEnforcementChange)
    → (confirm_change st pending).0.pending_change ≡ st.pending_change
unfolding confirm_change apply_patch
confirm-pending st none = refl
confirm-pending st (some change) = refl

abbrev asked_about : GatewayConfig → EnforcementField → String → Option PendingEnforcementChange
asked_about config field next =
    some
      (record { field = field; previous_value = current_value_for config field; next_value = next })

handle-Pends :
    (st : Controls) (config : GatewayConfig) (field : EnforcementField) (next : String)
    (asked : Option EnforcementField)
    → Pends asked st.pending_change
    → Pends
        (asks (chosen config field next) asked)
        (handle_mode_change st config field next).0.pending_change
unfolding handle_mode_change apply_patch
handle-Pends st config field next asked pends = elim (Bool-cases (is_flip_to_enforce field next)) [
  | inl flips ↦ simp flips (
    current_value_for config field,
    ap (asked_about config field) (flip-enforce field next flips),
  )
  | inr plain ↦ simp plain pends
]

flip-empty : (field : EnforcementField) → is_flip_to_enforce field "" ≡ false
unfolding is_flip_to_enforce
flip-empty field = ground arith

is_empty : (s : String) → truthy s ≡ false → s ≡ ""
is_empty s empty = ground (arith, eq_iff s "")

step-Pends :
    (st : Controls) (event : ControlsEvent) (asked : Option EnforcementField)
    → Pends asked st.pending_change
    → Pends (asks event asked) (controls_step st event).0.pending_change
unfolding controls_step tile_change end_patch
step-Pends st (chosen config field next) asked pends = elim (Bool-cases (truthy next)) [
  | inl full ↦ simp full (handle-Pends st config field next asked pends)
  | inr empty ↦ simp empty (
      subst (λ v. Pends (asks (chosen config field v) asked) st.pending_change)
        (sym (is_empty next empty)) (simp (flip-empty field) pends))
]
step-Pends st confirmed asked pends =
    subst (Pends asked) (sym (confirm-pending st st.pending_change)) pends
step-Pends st dismissed asked pends = refl
step-Pends st (settled field outcome) asked pends = pends

pending_lem :
    (history : List ControlsEvent)
    → Pends (question history) (controls_after history).pending_change
unfolding question controls_after untouched
pending_lem [] = refl
pending_lem (event ∷ history) =
    step-Pends (controls_after history) event (question history) (pending_lem history)

-- What the confirmation sends is the pending change.
confirm-IsAsked :
    (st : Controls) (pending : Option PendingEnforcementChange) (asked : Option EnforcementField)
    (patch : ConfigEnforcementPatchRequest)
    → Pends asked pending
    → (confirm_change st pending).1 ≡ some patch
    → (field : EnforcementField) × (asked ≡ some field)
      × (patch ≡ build_enforcement_patch field "enforce")
unfolding confirm_change apply_patch
confirm-IsAsked st pending none patch pends sent =
    absurd (none-ne-some patch (sym (ap (λ o. (confirm_change st o).1) pends) ∙ sent))
confirm-IsAsked st pending (some field) patch (before, pends) sent =
    (field, refl, cc (sent, ap (λ o. (confirm_change st o).1) pends))

-- What a choice sends does not enforce.
handle-IsPlain :
    (st : Controls) (config : GatewayConfig) (field : EnforcementField) (next : String)
    (patch : ConfigEnforcementPatchRequest)
    → (handle_mode_change st config field next).1 ≡ some patch
    → enforces patch ≡ false
unfolding handle_mode_change apply_patch
handle-IsPlain st config field next patch sent = elim (Bool-cases (is_flip_to_enforce field next)) [
  | inl flips ↦ ground (arith, flips)
  | inr plain ↦ ground (arith, plain, enforces-build field next)
]

sent-IsConfirmed :
    (st : Controls) (event : ControlsEvent) (patch : ConfigEnforcementPatchRequest)
    (asked : Option EnforcementField)
    → Pends asked st.pending_change
    → (controls_step st event).1 ≡ some patch
    → enforces patch ≡ true
    → (event ≡ confirmed)
      × ((field : EnforcementField) × (asked ≡ some field)
          × (patch ≡ build_enforcement_patch field "enforce"))
unfolding controls_step tile_change
sent-IsConfirmed st (chosen config field next) patch asked pends sent on =
    elim (Bool-cases (truthy next)) [
      | inl full ↦ ground (arith, full, handle-IsPlain st config field next patch)
      | inr empty ↦ ground (arith, empty)
    ]
sent-IsConfirmed st confirmed patch asked pends sent on =
    (refl, confirm-IsAsked st st.pending_change asked patch pends sent)
sent-IsConfirmed st dismissed patch asked pends sent on = absurd (none-ne-some patch sent)
sent-IsConfirmed st (settled field outcome) patch asked pends sent on =
    absurd (none-ne-some patch sent)

-- A request that switches the classifier or the vector filter to enforcement is sent only by the
-- dialog's confirmation, and it sets the field that the dialog asks about to "enforce" and no other.
pub enforces-IsConfirmed :
    (history : List ControlsEvent) (event : ControlsEvent) (patch : ConfigEnforcementPatchRequest)
    → (controls_step (controls_after history) event).1 ≡ some patch
    → enforces patch ≡ true
    → (event ≡ confirmed)
      × ((field : EnforcementField) × (question history ≡ some field)
          × (patch ≡ build_enforcement_patch field "enforce"))
unfolding controls_step tile_change
enforces-IsConfirmed history event patch sent on =
    sent-IsConfirmed (controls_after history) event patch (question history) (pending_lem history)
      sent on
