-- ===== src/Core/Run.antt =====
-- core/engine.go: `runChecks` and the Run methods of the engine.
pub mod Entries
pub mod Erased
pub mod InTurn
pub mod Distinct
pub mod Reordered
pub mod AnyOrder
pub mod Slots
pub mod Answer
pub mod Verdict
pub mod Failing
pub mod Response
pub mod Document
pub mod Whole
pub mod Total
pub mod Wait
pub mod Timely
pub mod Logging
pub mod Goroutines
use go_health.Prelude.{ℕ, String, List, [], ◌∷◌, ◌++◌, Option, none, some, map, length}
use go_health.Go.Exec.{Exec, pure, now, fork_join, ◌>>=◌}
use go_health.Go.Context.{Context}
use go_health.Go.Time.{rfc3339_nano}
use go_health.Go.Table.{lookup, assign}
use go_health.Go.Json.{nil}
use go_health.Core.Status.{status_pass}
use go_health.Core.Check.{Check, ComponentStatus, HealthResponse}
use go_health.Core.Engine.{Engine, system_time_check_name}
use go_health.Core.Observe.{run_one}
use go_health.Core.Aggregate.{aggregate}
use go_health.Core.Log.{LogEntry, emit_log}

-- The entry "system:time", with its stamp.
unfoldable pub system_time_entry : String → ComponentStatus
system_time_entry stamp = record {
  component_id = "";
  component_type = "system";
  observed_value = nil;
  observed_unit = "";
  status = status_pass;
  affected_endpoints = [];
  time = stamp;
  output = "";
  links = [];
}

pub system_time_status : Exec ComponentStatus
system_time_status = do t ← now; pure (system_time_entry (rfc3339_nano t))

-- out[name] = append(out[name], found...); a name that is absent reads as nil.
abbrev existing : Option (List ComponentStatus) → List ComponentStatus
existing none = []
existing (some found) = found

-- One round of the second loop of `runChecks`: a check with nothing to report is skipped.
unfoldable pub collect_one :
    Check
    → List ComponentStatus
    → List (String × List ComponentStatus)
    → List (String × List ComponentStatus)
collect_one c [] out = out
collect_one c (r ∷ rs) out = assign c.name (existing (lookup c.name out) ++ (r ∷ rs)) out

-- The second loop of `runChecks`, over the checks and their slots of `results`.
unfoldable pub collect :
    List Check
    → List (List ComponentStatus)
    → List (String × List ComponentStatus)
    → List (String × List ComponentStatus)
collect (c ∷ checks) (found ∷ results) out = collect checks results (collect_one c found out)
collect _ _ out = out

-- The slots of the goroutines, in the order of the checks. `delay` is the scheduler's choice.
unfoldable pub run_checks :
    (ℕ → ℕ) → Context → List Check → Exec (List (String × List ComponentStatus))
unfolding system_time_status
run_checks delay ctx [] = do
  stamp ← system_time_status
  pure ((system_time_check_name, stamp ∷ []) ∷ [])
run_checks delay ctx (c ∷ checks) = do
  stamp ← system_time_status
  let out = (system_time_check_name, stamp ∷ []) ∷ []
  results ← fork_join delay (map (run_one ctx) (c ∷ checks))
  pure (collect (c ∷ checks) results out)

-- The common body of the Run methods, over the checks of a probe and its name in the log. The
-- entries that the logger received are returned beside the response.
probe : Engine → (ℕ → ℕ) → Context → String → List Check → Exec (HealthResponse × List LogEntry)
probe e delay ctx kind set = do
  checks ← run_checks delay ctx set
  let status = aggregate checks
  logged ← emit_log e kind status (length set)
  pure (
    record {
      status = status;
      service_id = e.service_id;
      description = e.description;
      checks = checks;
    },
    logged,
  )

unfoldable pub run_livez : Engine → (ℕ → ℕ) → Context → Exec (HealthResponse × List LogEntry)
unfolding probe
run_livez e delay ctx = probe e delay ctx "liveness" e.livez

unfoldable pub run_readyz : Engine → (ℕ → ℕ) → Context → Exec (HealthResponse × List LogEntry)
unfolding probe
run_readyz e delay ctx = probe e delay ctx "readiness" e.readyz

unfoldable pub run_healthz : Engine → (ℕ → ℕ) → Context → Exec (HealthResponse × List LogEntry)
unfolding probe
run_healthz e delay ctx = probe e delay ctx "health" e.healthz
