-- ===== src/Examples/Shop.antt =====
-- The engine of a shop: a watchdog that passes, a database that is down, and a storage that warns.
use go_health.Prelude.{ℕ, String, List, [], ◌∷◌, none, some}
use go_health.Go.Exec.{Exec, takes}
use go_health.Go.Duration.{seconds}
use go_health.Go.Context.{Context}
use go_health.Go.Json.{nil}
use go_health.Core.Status.{status_pass, status_warn, status_fail}
use go_health.Core.Check.{Result, zero_result, Check, ComponentStatus, HealthResponse}
use go_health.Core.Engine.{Engine, default_logger}
use go_health.Core.Engine.History.{Scope, health, readiness, liveness}
use go_health.Core.Log.{LogEntry, error}
use go_health.Checks.DbCheck.{Pinger, new}

-- It passes, with diagnostics that are left over.
abbrev pub alive : Result
alive = record zero_result {
  status = status_pass;
  output = "was stuck";
  affected_endpoints = "/cart" ∷ [];
}

abbrev pub watchdog_run : Context → Exec (List Result)
watchdog_run ctx = takes 2 (alive ∷ [])

abbrev pub watchdog : Check
watchdog = record {
  name = "app:watchdog";
  component_type = "component";
  timeout = seconds 1;
  run = some watchdog_run;
}

abbrev pub pinger : Pinger
pinger = record { ping_context = λ ctx. takes 9 (some "connection refused") }

abbrev pub storage : Check
storage = record {
  name = "storage";
  component_type = "datastore";
  timeout = seconds 5;
  run =
      some (λ ctx. takes 4 (record zero_result { status = status_warn; output = "80% full" } ∷ []));
}

abbrev pub forgotten : Check
forgotten = record {
  name = "app:todo";
  component_type = "component";
  timeout = seconds 1;
  run = none;
}

abbrev pub history : List (Scope × Check)
history = (health, storage) ∷ (liveness, watchdog) ∷ (readiness, new pinger) ∷ []

abbrev pub clash : Check
clash = record watchdog { name = "system:time" }

abbrev pub shop : Engine
shop = record {
  service_id = "shop";
  description = "the shop";
  logger = some default_logger;
  livez = watchdog ∷ [];
  readyz = watchdog ∷ new pinger ∷ [];
  healthz = storage ∷ watchdog ∷ new pinger ∷ [];
}

-- No goroutine waits.
abbrev pub at_once : ℕ → ℕ
at_once i = 0

abbrev entry : String → String → String → String → ComponentStatus
entry component_type status stamp output = record {
  component_id = "";
  component_type = component_type;
  observed_value = nil;
  observed_unit = "";
  status = status;
  affected_endpoints = [];
  time = stamp;
  output = output;
  links = [];
}

abbrev pub watched : ComponentStatus
watched = entry "component" status_pass "1970-01-01T00:00:00.000000002Z" ""

abbrev pub refused : ComponentStatus
refused = entry "datastore" status_fail "1970-01-01T00:00:00.000000009Z" "connection refused"

abbrev pub checks : List (String × List ComponentStatus)
checks =
    ("system:time", entry "system" status_pass "1970-01-01T00:00:00Z" "" ∷ [])
    ∷ ("app:watchdog", watched ∷ [])
    ∷ ("database:connections", refused ∷ [])
    ∷ []

-- What the readiness probe answers.
abbrev pub response : HealthResponse
response = record {
  status = status_fail;
  service_id = "shop";
  description = "the shop";
  checks = checks;
}

abbrev pub logged : List LogEntry
logged =
    record {
      logger = default_logger;
      level = error;
      message = "readiness check completed with failures";
      status = status_fail;
      checks_count = 2;
    }
    ∷ []
