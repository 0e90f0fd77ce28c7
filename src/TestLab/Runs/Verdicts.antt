-- ===== src/TestLab/Runs/Verdicts.antt =====
-- Which persisted rows are shown with a verdict.
use pact_web.Prelude.{ℕ, ◌≡◌, ◌≢◌, ◌↔◌, true, Option, none, some, String, eq_iff, arith}
use pact_web.TestLab.Wire.{Decision}
use pact_web.TestLab.Runs.{TestLabRunRecord, TestRun, ok, error, opt_is, to_test_run}

-- The decision that a shown run carries.
abbrev pub verdict : TestRun → Option Decision
verdict (ok base d reason rule) = some d
verdict (error base message) = none

abbrev decision_text : Decision → String
decision_text Decision.allow = "allow"
decision_text Decision.block = "block"

opt_is_iff : (o : Option String) (text : String) → (opt_is o text ≡ true) ↔ (o ≡ some text)
opt_is_iff none text = ground arith
opt_is_iff (some s) text = ground (arith, eq_iff s text)

-- A persisted row is shown with a verdict exactly where its status is not "error" and its decision
-- is the text of that verdict.
verdict-to_test_run :
    (iso_string : ℕ → String) (r : TestLabRunRecord) (d : Decision)
    → (verdict (to_test_run iso_string r) ≡ some d)
      ↔ ((r.status ≢ some "error") × (r.decision ≡ some (decision_text d)))
unfolding to_test_run
verdict-to_test_run iso_string r d = ground (
  arith,
  opt_is_iff r.status "error",
  opt_is_iff r.decision "allow",
  opt_is_iff r.decision "block",
  eq_iff "allow" "block",
)
