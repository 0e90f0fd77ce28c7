-- ===== src/Benchmark/HubImport/Identity.antt =====
-- Which dataset a request is about.
use pact_web.Prelude.{◌≡◌, ◌↔◌, ap, Option, String, arith, eq_iff}
use pact_web.Prelude.Trim.{trim}
use pact_web.Benchmark.HubImport.{
  HubDatasetIdentity, hub_dataset_identity_key, build_preview_params, part,
}

part-inj : (s t : String) → part s ≡ part t → trim s ≡ trim t
part-inj s t e = ground (arith, eq_iff (trim s) "", eq_iff (trim t) "")

module _ {Score : Type 0} where
  -- Two identities have one key exactly where their previews, with the same choices of columns,
  -- are asked for by the same request.
  pub same_preview_iff :
      (a b : HubDatasetIdentity) (label score : Option String) (threshold : Option Score)
      → (hub_dataset_identity_key a ≡ hub_dataset_identity_key b) ↔ (
          build_preview_params a label score threshold
          ≡ build_preview_params b label score threshold)
  unfolding build_preview_params hub_dataset_identity_key
  same_preview_iff a b label score threshold = (
    λ e. cc (ap (λ k. k.0) e, ap (λ k. k.1) e, ap (λ k. k.2) e, ap (λ k. k.3) e),
    λ e.
        let slugs = ap (λ r. r.slug) e in
        let splits = part-inj a.split b.split (ap (λ r. r.split) e) in
        let configs = part-inj a.config b.config (ap (λ r. r.config) e) in
        let revisions = part-inj a.revision b.revision (ap (λ r. r.revision) e) in
        cc (slugs, splits, configs, revisions),
  )
