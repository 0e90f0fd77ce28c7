-- ===== src/Benchmark/HubImport.antt =====
-- src/app/benchmark/domain/benchmark_import.ts: which columns of a hub dataset are imported, and
-- the requests that say so. `Score` is the type of the thresholds; the label values' lower case
-- (`toLowerCase`) is a parameter. `null` and absence are `none`.
pub mod Labelling
pub mod Identity
use Prim.Native.String.{[], ◌∷◌}
use pact_web.Benchmark.Mapping.Vocabulary.{LabelDecision}
use pact_web.Prelude.{
  if◌then◌else◌, Bool, true, false, ◌&&◌, ◌||◌, not, Option, none, some, is_some, or_else, chain,
  List, [], ◌∷◌, String, ◌==◌,
}
use pact_web.Prelude.Text.{truthy, truthy_opt, or_undefined}
use pact_web.Prelude.Trim.{trim}

pub record HubDatasetIdentity : Type 0 where
  pub slug : String
  pub split : String
  pub config : String
  pub revision : String

abbrev no_label_column : String
no_label_column = "__none__"

-- The array that `hubDatasetIdentityKey` prints.
unfoldable pub hub_dataset_identity_key : HubDatasetIdentity → String × String × String × String
hub_dataset_identity_key identity =
    (trim identity.slug, trim identity.split, trim identity.config, trim identity.revision)

-- A trimmed part, absent where nothing is left of it.
abbrev pub part : String → Option String
part text = or_undefined (some (trim text))

-- `value && value.trim().length > 0 ? value : null`
unfoldable pub normalize_detected_column : Option String → Option String
normalize_detected_column none = none
normalize_detected_column (some value) =
    if truthy value && truthy (trim value) then some value else none

pub data AssumeLabel : Type 0 where
  allow block : AssumeLabel

unfoldable pub to_assume_label : Option String → Option AssumeLabel
to_assume_label none = none
to_assume_label (some value) =
    if value == "allow"
    then some AssumeLabel.allow
    else if value == "block"
    then some AssumeLabel.block
    else none

-- What a preview says of the columns.
pub record HubDatasetPreview (Score : Type 0) : Type 0 where
  pub detected_text_column : Option String
  pub detected_label_column : Option String
  pub score_column : Option String
  pub suggested_threshold : Option Score
  pub suggested_assume_label : Option String

pub record HubImportSelections (Score : Type 0) : Type 0 where
  pub text_column : Option String
  pub label_column : Option String
  pub assume_label : Option AssumeLabel
  pub score_threshold : Option Score

pub record ResolvedHubImportMapping (Score : Type 0) : Type 0 where
  pub text_column : Option String
  pub label_column : Option String
  pub score_column : Option String
  pub score_threshold : Option Score
  pub assume_label : Option AssumeLabel
  pub text_column_auto_detected : Bool
  pub label_column_auto_detected : Bool
  pub assume_label_auto_detected : Bool
  pub score_threshold_auto_detected : Bool

pub record HubImportPreviewParams (Score : Type 0) : Type 0 where
  pub slug : String
  pub split : Option String
  pub config : Option String
  pub revision : Option String
  pub label_column : Option String
  pub score_column : Option String
  pub score_threshold : Option Score

pub record BuildImportRequestArgs (Score : Type 0) : Type 0 where
  pub identity : HubDatasetIdentity
  pub text_column : Option String
  pub label_column : Option String
  pub value_decisions : List (String × LabelDecision)
  pub score_column : Option String
  pub score_threshold : Option Score
  pub assume_label : Option AssumeLabel

pub record HubImportRequestDraft (Score : Type 0) : Type 0 where
  pub slug : String
  pub split : Option String
  pub config : Option String
  pub revision : Option String
  pub text_column : Option String
  pub label_column : Option String
  pub label_values : List (String × LabelDecision)
  pub score_column : Option String
  pub score_threshold : Option Score
  pub assume_label : Option AssumeLabel

-- `o[key] = v` on an object, as a list of its entries, whose order is not observed.
unfoldable pub assign :
    String → LabelDecision → List (String × LabelDecision) → List (String × LabelDecision)
assign key v [] = (key, v) ∷ []
assign key v ((other, w) ∷ entries) =
    let rest = assign key v entries in
    if other == key then (key, v) ∷ entries else (other, w) ∷ rest

unfoldable pub normalized_values :
    (String → String)
    → List (String × LabelDecision)
    → List (String × LabelDecision)
    → List (String × LabelDecision)
normalized_values lower done [] = done
normalized_values lower done ((raw, decision) ∷ entries) =
    normalized_values lower (assign (lower (trim raw)) decision done) entries

-- The label column in effect: the sentinel clears it.
unfoldable pub effective_label_column : Option String → Option String → Option String
effective_label_column none detected = detected
effective_label_column (some selected) detected =
    if selected == no_label_column then none else some selected

-- `o` unless the flag holds.
abbrev pub unless {ℓ} : {A : Type ℓ} → Bool → Option A → Option A
unless true o = none
unless false o = o

module _ {Score : Type 0} where
  unfoldable pub build_preview_params :
      HubDatasetIdentity
      → Option String
      → Option String
      → Option Score
      → HubImportPreviewParams Score
  build_preview_params identity label_column_selection score_column score_threshold = record {
    slug = trim identity.slug;
    split = part identity.split;
    config = part identity.config;
    revision = part identity.revision;
    label_column =
        chain (or_undefined label_column_selection)
          (λ selected. unless (selected == no_label_column) (some selected));
    score_column = unless (not (is_some score_threshold)) score_column;
    score_threshold = unless (not (is_some score_column)) score_threshold;
  }

  unfoldable pub resolve_hub_import_mapping :
      Option (HubDatasetPreview Score) → HubImportSelections Score → ResolvedHubImportMapping Score
  resolve_hub_import_mapping preview selections =
      let detected_text = normalize_detected_column (chain preview (λ p. p.detected_text_column)) in
      let detected_label =
        normalize_detected_column (chain preview (λ p. p.detected_label_column)) in
      let suggested_assume = to_assume_label (chain preview (λ p. p.suggested_assume_label)) in
      let label_column = effective_label_column selections.label_column detected_label in
      let score_column =
        unless (is_some label_column)
          (normalize_detected_column (chain preview (λ p. p.score_column))) in
      record {
        text_column = or_else selections.text_column detected_text;
        label_column = label_column;
        score_column = score_column;
        score_threshold =
            unless (not (is_some score_column))
              (or_else selections.score_threshold (chain preview (λ p. p.suggested_threshold)));
        assume_label =
            unless (is_some label_column || is_some score_column)
              (or_else selections.assume_label suggested_assume);
        text_column_auto_detected = not (is_some selections.text_column) && is_some detected_text;
        label_column_auto_detected =
            not (is_some selections.label_column) && is_some detected_label;
        assume_label_auto_detected =
            not (is_some label_column)
            && not (is_some score_column)
            && not (is_some selections.assume_label)
            && is_some suggested_assume;
        score_threshold_auto_detected =
            is_some score_column && not (is_some selections.score_threshold);
      }

  -- `useScore`
  abbrev use_score : BuildImportRequestArgs Score → Bool
  use_score args = is_some args.score_column && not (truthy_opt args.label_column)

  unfoldable pub build_import_request :
      (String → String) → BuildImportRequestArgs Score → HubImportRequestDraft Score
  build_import_request lower args = record {
    slug = trim args.identity.slug;
    split = part args.identity.split;
    config = part args.identity.config;
    revision = part args.identity.revision;
    text_column = or_undefined args.text_column;
    label_column = or_undefined args.label_column;
    label_values = normalized_values lower [] args.value_decisions;
    score_column = unless (not (use_score args)) args.score_column;
    score_threshold = unless (not (use_score args)) args.score_threshold;
    assume_label = unless (truthy_opt args.label_column || use_score args) args.assume_label;
  }
