-- ===== src/Core/Observe.antt =====
-- core/engine.go: `runOne`, the execution of one check.
pub mod Entries
pub mod Deadline
pub mod Omitted
pub mod Inverse
pub mod Single
use go_health.Prelude.{ℕ, String, List, [], ◌∷◌, Option, none, some, map, ◌==◌, if◌then◌else◌}
use go_health.Go.Exec.{Exec, pure, now, ◌>>=◌}
use go_health.Go.Duration.{is_positive}
use go_health.Go.Context.{Context, with_timeout}
use go_health.Go.Time.{rfc3339_nano}
use go_health.Core.Status.{status_pass, status_fail}
use go_health.Core.Check.{Result, zero_result, Check, ComponentStatus}

-- Output and AffectedEndpoints are cleared on pass.
abbrev suppress : ComponentStatus → ComponentStatus
suppress cs =
    if cs.status == status_pass then record cs { output = ""; affected_endpoints = [] } else cs

-- One round of the loop of `runOne`.
unfoldable pub observe : Check → String → Result → ComponentStatus
observe c time r = suppress (record {
  component_id = r.component_id;
  component_type = c.component_type;
  observed_value = r.observed_value;
  observed_unit = r.observed_unit;
  status = r.status;
  affected_endpoints = r.affected_endpoints;
  time = time;
  output = r.output;
  links = r.links;
})

abbrev pub no_run_result : Result
no_run_result = record zero_result { status = status_fail; output = "check has no Run function" }

-- The context that c.Run is given, at the reading `t`.
unfoldable pub check_context : Context → Check → ℕ → Context
check_context parent c t = if is_positive c.timeout then with_timeout parent c.timeout t else parent

abbrev pub invoke : Option (Context → Exec (List Result)) → Context → Exec (List Result)
invoke none ctx = pure (no_run_result ∷ [])
invoke (some run) ctx = run ctx

unfoldable pub run_one : Context → Check → Exec (List ComponentStatus)
run_one parent c = do
  start ← now
  results ← invoke c.run (check_context parent c start)
  end ← now
  pure (map (observe c (rfc3339_nano end)) results)
