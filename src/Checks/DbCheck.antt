-- ===== src/Checks/DbCheck.antt =====
-- checks/dbcheck/dbcheck.go. A call of the database takes time and returns the text of its error.
pub mod Contract
pub mod Health
pub mod Verdict
use go_health.Prelude.{String, List, [], ◌∷◌, Option, none, some}
use go_health.Go.Exec.{Exec, pure, ◌>>=◌}
use go_health.Go.Duration.{ℤ, seconds}
use go_health.Go.Context.{Context}
use go_health.Core.Status.{status_pass, status_fail}
use go_health.Core.Check.{Result, zero_result, Check}

abbrev pub default_name : String
default_name = "database:connections"

abbrev pub default_component_type : String
default_component_type = "datastore"

abbrev pub default_timeout : ℤ
default_timeout = seconds 2

pub record Pinger : Type 0 where
  pub ping_context : Context → Exec (Option String)

abbrev pub verdict : Option String → List Result
verdict (some err) = record zero_result { status = status_fail; output = err } ∷ []
verdict none = record zero_result { status = status_pass } ∷ []

unfoldable pub new : Pinger → Check
new p = record {
  name = default_name;
  component_type = default_component_type;
  timeout = default_timeout;
  run = some (λ ctx. do err ← p.ping_context ctx; pure (verdict err));
}
