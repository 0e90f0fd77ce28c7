-- ===== src/TestLab/Parse/WellFormed.antt =====
-- `parseCheckResponse` decides the contract of the body.
use pact_web.Prelude.{◌≡◌, ap, sym, ◌↔◌, none, some, arith}
use mathlib.Core.Path.{subst}
use pact_web.Prelude.Json.{Json, Fields, obj, get}
use pact_web.Prelude.Result.{ok, ◌>>◌}
use pact_web.TestLab.Parse.{
  Check, decisions, filter_verdicts, redactor_verdicts, external_ref_verdicts, spotlight_formats,
  spotlight_trust, assert_enum_field, optional_enum, get_opt, optional_items, assert_number,
  assert_string, check_filter, check_redactor, check_consensus, check_external_refs,
  check_spotlight, check_diagnostics, check_required, parse_check_response,
}
use pact_web.TestLab.Parse.Contract.{
  OneOf, AbsentOr, RecordWith, ArrayOf, IsNumber, IsString, IsSpotlight, IsWellFormed,
  assert_enum_field_iff, optional_enum_iff, >>-eq-ok, optional_items_iff, assert_number_iff,
  assert_string_iff, RecordWith-iff,
}

check_required_iff :
    (raw : Fields)
    → (check_required raw ≡ ok tt) ↔ (
        OneOf decisions (get "decision" raw)
        × IsNumber (get "latency_ms" raw)
        × IsString (get "request_id" raw))
unfolding check_required
check_required_iff raw =
    let a = assert_enum_field decisions (get "decision" raw) "decision" in
    let b = assert_number (get "latency_ms" raw) "latency_ms" in
    let c = assert_string (get "request_id" raw) "request_id" in
    ground (
      arith,
      >>-eq-ok a (b >> c),
      >>-eq-ok b c,
      assert_enum_field_iff decisions (get "decision" raw) "decision",
      assert_number_iff (get "latency_ms" raw) "latency_ms",
      assert_string_iff (get "request_id" raw) "request_id",
    )

check_spotlight_iff :
    (raw : Fields) → (check_spotlight raw ≡ ok tt) ↔ RecordWith IsSpotlight (get "spotlight" raw)
unfolding check_spotlight
check_spotlight_iff raw = RecordWith-iff IsSpotlight _ (get "spotlight" raw) "spotlight" λ o.
    ground (
      arith,
      >>-eq-ok (optional_enum spotlight_formats (get_opt "format" o) "spotlight.format") (
          optional_items (some ("trust", spotlight_trust)) (get_opt "chunks" o) "spotlight.chunks"),
      optional_enum_iff spotlight_formats (get_opt "format" o) "spotlight.format",
      optional_items_iff (some ("trust", spotlight_trust)) (get_opt "chunks" o) "spotlight.chunks",
    )

module _ (raw : Fields) where
  check_filter_iff :
      (check_filter raw ≡ ok tt)
      ↔ RecordWith (λ o. AbsentOr filter_verdicts (get_opt "verdict" o)) (get "filter" raw)
  unfolding check_filter
  check_filter_iff =
      RecordWith-iff _ _ (get "filter" raw) "filter"
        λ o. optional_enum_iff filter_verdicts (get_opt "verdict" o) "filter.verdict"

  check_redactor_iff :
      (check_redactor raw ≡ ok tt)
      ↔ RecordWith (λ o. AbsentOr redactor_verdicts (get_opt "verdict" o)) (get "redactor" raw)
  unfolding check_redactor
  check_redactor_iff =
      RecordWith-iff _ _ (get "redactor" raw) "redactor"
        λ o. optional_enum_iff redactor_verdicts (get_opt "verdict" o) "redactor.verdict"

  check_consensus_iff : (check_consensus raw ≡ ok tt) ↔ RecordWith (λ _. Unit) (get "consensus" raw)
  unfolding check_consensus
  check_consensus_iff =
      RecordWith-iff (λ _. Unit) _ (get "consensus" raw) "consensus" λ o. ground arith

  check_external_refs_iff :
      (check_external_refs raw ≡ ok tt)
      ↔ RecordWith
          (λ o. ArrayOf (some ("verdict", external_ref_verdicts)) (get_opt "refs" o))
          (get "external_refs" raw)
  unfolding check_external_refs
  check_external_refs_iff = RecordWith-iff _ _ (get "external_refs" raw) "external_refs" λ o.
      optional_items_iff (some ("verdict", external_ref_verdicts)) (get_opt "refs" o)
        "external_refs.refs"

  check_diagnostics_iff :
      (check_diagnostics raw ≡ ok tt)
      ↔ RecordWith (λ o. ArrayOf none (get_opt "causal_spans" o)) (get "diagnostics" raw)
  unfolding check_diagnostics
  check_diagnostics_iff =
      RecordWith-iff _ _ (get "diagnostics" raw) "diagnostics"
        λ o. optional_items_iff none (get_opt "causal_spans" o) "diagnostics.causal_spans"

seven :
    (a b c d e f g : Check) (raw raw' : Fields)
    → ((do a; b; c; d; e; f; g; ok raw) ≡ ok raw') ↔ (
        (a ≡ ok tt)
        × (b ≡ ok tt)
        × (c ≡ ok tt)
        × (d ≡ ok tt)
        × (e ≡ ok tt)
        × (f ≡ ok tt)
        × (g ≡ ok tt)
        × (raw ≡ raw'))
seven a b c d e f g raw raw' = ground arith

-- The seven checks together are the contract.
checks_iff :
    (fs : Fields)
    → ((check_required fs ≡ ok tt)
        × (check_filter fs ≡ ok tt)
        × (check_redactor fs ≡ ok tt)
        × (check_consensus fs ≡ ok tt)
        × (check_external_refs fs ≡ ok tt)
        × (check_spotlight fs ≡ ok tt)
        × (check_diagnostics fs ≡ ok tt))
      ↔ IsWellFormed fs
checks_iff fs = (
  λ (a, b, c, d, e, f, g). record {
    decision = ((check_required_iff fs).0 a).0;
    latency_ms = ((check_required_iff fs).0 a).1;
    request_id = ((check_required_iff fs).0 a).2;
    filter = (check_filter_iff fs).0 b;
    redactor = (check_redactor_iff fs).0 c;
    consensus = (check_consensus_iff fs).0 d;
    external_refs = (check_external_refs_iff fs).0 e;
    spotlight = (check_spotlight_iff fs).0 f;
    diagnostics = (check_diagnostics_iff fs).0 g;
  },
  λ w. (
    (check_required_iff fs).1 (w.decision, w.latency_ms, w.request_id),
    (check_filter_iff fs).1 w.filter,
    (check_redactor_iff fs).1 w.redactor,
    (check_consensus_iff fs).1 w.consensus,
    (check_external_refs_iff fs).1 w.external_refs,
    (check_spotlight_iff fs).1 w.spotlight,
    (check_diagnostics_iff fs).1 w.diagnostics,
  ),
)

-- A body is accepted, as the object that it is, exactly where it meets the contract.
pub parse_check_response_iff :
    (body : Json) (raw : Fields)
    → (parse_check_response body ≡ ok raw) ↔ ((body ≡ obj raw) × IsWellFormed raw)
unfolding parse_check_response
parse_check_response_iff (obj fs) raw =
    let s =
      seven (check_required fs) (check_filter fs) (check_redactor fs) (check_consensus fs)
        (check_external_refs fs) (check_spotlight fs) (check_diagnostics fs) fs raw in
    (
      λ h.
          let (a, b, c, d, e, f, g, same) = s.0 h in
          (ap obj same, subst IsWellFormed same ((checks_iff fs).0 (a, b, c, d, e, f, g))),
      λ (same, w).
          let fs_raw : fs ≡ raw = cc in
          let (a, b, c, d, e, f, g) = (checks_iff fs).1 (subst IsWellFormed (sym fs_raw) w) in
          s.1 (a, b, c, d, e, f, g, fs_raw),
    )
parse_check_response_iff _ raw = ground arith
