-- ===== src/TestLab/Runs.antt =====
-- `toTestRun`: a persisted run as the UI shows it.
pub mod Verdicts
use pact_web.Prelude.{ℕ, ◌*◌, if◌then◌else◌, Option, none, some, Bool, false, String, ◌==◌}
use pact_web.Prelude.Text.{or_undefined}
use pact_web.TestLab.Wire.{Decision}

-- The gateway's row: `TestLabRunRecord`.
pub record TestLabRunRecord : Type 0 where
  pub id : String
  pub content : String
  pub attack_type : String
  pub latency_ms : ℕ
  pub created_at : ℕ
  pub status : Option String
  pub decision : Option String
  pub error : Option String
  pub reason : Option String
  pub filter_rule_id : Option String

pub record TestRunBase : Type 0 where
  pub id : String
  pub input : String
  pub attack_type : String
  pub latency_ms : ℕ
  pub timestamp : String

pub data TestRun : Type 0 where
  ok : TestRunBase → Decision → Option String → Option String → TestRun
  error : TestRunBase → Option String → TestRun

abbrev pub opt_is : Option String → String → Bool
opt_is none text = false
opt_is (some s) text = s == text

-- `iso_string` is `new Date(ms).toISOString()`.
module _ (iso_string : ℕ → String) where
  abbrev base_of : TestLabRunRecord → TestRunBase
  base_of r = record {
    id = r.id;
    input = r.content;
    attack_type = r.attack_type;
    latency_ms = r.latency_ms;
    timestamp = iso_string (r.created_at * 1000);
  }

  unfoldable pub to_test_run : TestLabRunRecord → TestRun
  to_test_run r =
      let shown = λ (d : Decision).
        ok (base_of r) d (or_undefined r.reason) (or_undefined r.filter_rule_id) in
      if opt_is r.status "error"
      then error (base_of r) (or_undefined r.error)
      else if opt_is r.decision "allow"
      then shown Decision.allow
      else if opt_is r.decision "block"
      then shown Decision.block
      else error (base_of r) (or_undefined r.error)
