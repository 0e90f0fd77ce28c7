-- ===== src/Benchmark/HubImport/Labelling.antt =====
-- One way of labelling the rows at a time.
use pact_web.Prelude.{
  ◌≡◌, refl, false, ◌&&◌, ◌||◌, not, Option, none, some, is_some, String, arith, inl, inr,
  Bool-cases,
}
use pact_web.Prelude.Text.{truthy, truthy_opt, or_undefined}
use pact_web.Benchmark.HubImport.{
  HubDatasetPreview, HubImportSelections, BuildImportRequestArgs, AssumeLabel,
  resolve_hub_import_mapping, build_import_request, unless,
}

-- A label column excludes the others, a score column the assumed label, and a threshold needs its
-- column.
abbrev pub IsOnePath {ℓ} :
    {S : Type ℓ} → Option String → Option String → Option S → Option AssumeLabel → Type 0
IsOnePath label score threshold assume =
    ((is_some label && is_some score) ≡ false)
    × ((is_some label && is_some assume) ≡ false)
    × ((is_some score && is_some assume) ≡ false)
    × ((is_some threshold && not (is_some score)) ≡ false)

module _ {Score : Type 0} where
  unless-paths :
      (label score : Option String) (threshold : Option Score) (assume : Option AssumeLabel)
      → IsOnePath label
          (unless (is_some label) score)
          (unless (not (is_some (unless (is_some label) score))) threshold)
          (unless (is_some label || is_some (unless (is_some label) score)) assume)
  unless-paths (some l) score threshold assume = (refl, refl, refl, refl)
  unless-paths none (some s) none assume = (refl, refl, refl, refl)
  unless-paths none (some s) (some t) assume = (refl, refl, refl, refl)
  unless-paths none none threshold assume = (refl, refl, refl, refl)

  request-paths :
      (label score : Option String) (threshold : Option Score) (assume : Option AssumeLabel)
      → let used = is_some score && not (truthy_opt label) in
        IsOnePath
          (or_undefined label)
          (unless (not used) score)
          (unless (not used) threshold)
          (unless (truthy_opt label || used) assume)
  request-paths none (some s) none assume = (refl, refl, refl, refl)
  request-paths none (some s) (some t) assume = (refl, refl, refl, refl)
  request-paths none none threshold assume = (refl, refl, refl, refl)
  request-paths (some l) none threshold assume = elim (Bool-cases (truthy l)) [
    | inl full ↦ ground arith
    | inr blank ↦ ground arith
  ]
  request-paths (some l) (some s) threshold assume = elim (Bool-cases (truthy l)) [
    | inl full ↦ ground arith
    | inr blank ↦ ground arith
  ]

  -- Whatever is detected and whatever is chosen, the mapping shown has at most one of a label
  -- column, a score column and an assumed label, and a threshold only with a score column.
  resolve_hub_import_mapping-IsOnePath :
      (preview : Option (HubDatasetPreview Score)) (selections : HubImportSelections Score)
      → let m = resolve_hub_import_mapping preview selections in
        IsOnePath m.label_column m.score_column m.score_threshold m.assume_label
  unfolding resolve_hub_import_mapping
  resolve_hub_import_mapping-IsOnePath preview selections = unless-paths _ _ _ _

  -- Every request that is built, whatever mapping it is built from, labels its rows in one way at
  -- most: of a label column, a score column and an assumed label it has no two, and a threshold only
  -- with a score column.
  pub build_import_request-IsOnePath :
      (lower : String → String) (args : BuildImportRequestArgs Score)
      → let r = build_import_request lower args in
        IsOnePath r.label_column r.score_column r.score_threshold r.assume_label
  unfolding build_import_request
  build_import_request-IsOnePath lower args =
      request-paths args.label_column args.score_column args.score_threshold args.assume_label
