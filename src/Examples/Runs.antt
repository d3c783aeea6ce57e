-- ===== src/Examples/Runs.antt =====
-- The Run methods of the engine of the shop.
use go_health.Prelude.{
  ℕ, ◌+◌, arith, max, ◌≤◌, ◌≡◌, refl, ◌≢◌, ◌⊎◌, ◌↔◌, inl, inr, String, List, [], ◌∷◌, none, some,
  map, length,
}
use go_health.Go.Exec.{returned, panicked, fork_join}
use go_health.Go.Exec.Join.{Joined, Last}
use go_health.Go.Json.{nil}
use go_health.Go.Context.{background}
use go_health.Go.Table.{assign, lookup}
use go_health.Go.Time.{rfc3339_nano}
use go_health.Core.Status.{status_pass, status_warn, status_fail}
use go_health.Core.Check.{ComponentStatus, HealthResponse}
use go_health.Core.Engine.{
  Engine, Logger, default_logger, done, new_engine, apply_options, register_readiness_check,
  register_liveness_check,
}
use go_health.Core.Engine.History.{live, ready, liveness, readiness, build, register_all}
use go_health.Core.Engine.Cascade.{build-IsWellFormed}
use go_health.Core.Observe.{run_one, observe}
use go_health.Core.Aggregate.{aggregate}
use go_health.Core.Aggregate.Strict.{Has}
use go_health.Core.Log.{LogEntry, Level, nil_dereference, emit_log}
use go_health.Core.Log.Levels.{LogsAt, entry_at}
use go_health.Core.Run.{system_time_entry, collect_one, collect, run_checks, run_readyz}
use go_health.Core.Run.Entries.{found_under, joined}
use go_health.Core.Run.Slots.{initial}
use go_health.Core.Run.Answer.{run, kind}
use go_health.Core.Run.Total.{run_total}
use go_health.Core.Run.Verdict.{Observed, run_verdict}
use go_health.Core.Run.Failing.{run_fails, no_run-fails}
use go_health.Core.Run.Response.{run_entries}
use go_health.Core.Run.Wait.{run_checks_slowest}
use go_health.Core.Run.Logging.{run_logs, run_nil_logger}
use go_health.Checks.DbCheck.{new}
use go_health.Checks.DbCheck.Verdict.{new_reports}
use go_health.Examples.Shop.{
  watchdog, forgotten, pinger, shop, at_once, watched, refused, checks, response, logged,
}
use go_health.Examples.Engines.{shop-IsWellFormed}

pub readiness_ran : run ready shop at_once background 0 ≡ returned (response, logged) 9
unfolding run_readyz run_checks collect collect_one fork_join run_one observe aggregate emit_log
    system_time_entry rfc3339_nano assign lookup new
readiness_ran = refl

checks_ran : run_checks at_once background shop.readyz 0 ≡ returned checks 9
unfolding run_checks collect collect_one fork_join run_one observe system_time_entry rfc3339_nano
    assign lookup new
checks_ran = refl

run_verdict_example :
    (slots : List (List ComponentStatus)) × (fork_join at_once
        (map (run_one background) shop.readyz)
        0
      ≡ returned slots 9)
    × ((response.status ≡ status_fail) ↔ Observed status_fail slots)
    × ((response.status ≡ status_warn)
        ↔ (Observed status_warn slots × ¬ Observed status_fail slots))
    × ((response.status ≡ status_pass)
        ↔ ((¬ Observed status_warn slots) × ¬ Observed status_fail slots))
run_verdict_example = run_verdict ready shop at_once background 0 9 response logged readiness_ran

run_entries_example :
    (slots : List (List ComponentStatus)) × (fork_join at_once
        (map (run_one background) shop.readyz)
        0
      ≡ returned slots 9)
    × (lookup "system:time" response.checks ≡ some (system_time_entry (rfc3339_nano 0) ∷ []))
    × ((n : String)
        → (n ≡ "system:time")
          ⊎ (lookup n response.checks ≡ joined none (found_under n shop.readyz slots)))
run_entries_example =
    run_entries ready shop at_once background 0 9 response logged shop-IsWellFormed readiness_ran

-- The database fails each time.
pub database_down :
    (t u : ℕ) (found : List ComponentStatus)
    → run_one background (new pinger) t ≡ returned found u
    → Has status_fail found
database_down t u found ran =
    let (cs, ran_down, (fails, _), _) =
      new_reports pinger background t (t + 9) (some "connection refused") refl in
    let same : found ≡ cs ∷ [] = cc in rw same (inl fails)

run_fails_example : response.status ≡ status_fail
run_fails_example =
    run_fails background (new pinger) database_down ready ready shop at_once 0 9 response logged
      shop-IsWellFormed refl (inr (inl refl)) readiness_ran

run_checks_slowest_example :
    ((slots : List (List ComponentStatus)) × Joined at_once 0 9
        (map (run_one background) shop.readyz)
        slots)
    × (0 ≤ 9)
    × ((◌≡◌ {A = ℕ} 9 0) ⊎ Last at_once 0 9 (map (run_one background) shop.readyz))
run_checks_slowest_example = run_checks_slowest at_once background shop.readyz 0 9 checks checks_ran

pub Joined-in_time :
    Joined at_once 0 20
      (map (run_one background) shop.readyz)
      ((watched ∷ []) ∷ (refused ∷ []) ∷ [])
unfolding run_one observe rfc3339_nano new
Joined-in_time = ((2, refl, omega arith), ((9, refl, omega arith), tt))

run_logs_example :
    ((response.status ≡ status_pass) × (logged ≡ []))
    ⊎ ((level : Level) × (l : Logger) × (shop.logger ≡ some l)
        × LogsAt response.status level
        × (logged ≡ entry_at l level (kind ready) response.status (length shop.readyz) ∷ []))
run_logs_example = run_logs ready shop at_once background 0 9 response logged readiness_ran

abbrev mute : Engine
mute = record shop { logger = none }

run_nil_logger_example :
    ((aggregate checks ≡ status_pass)
      × ((answer : HealthResponse) × (run ready mute at_once background 0 ≡ returned (answer, []) 9)
          × (answer.checks ≡ checks)))
    ⊎ ((aggregate checks ≢ status_pass)
        × (run ready mute at_once background 0 ≡ panicked nil_dereference))
run_nil_logger_example = run_nil_logger ready mute at_once background 0 9 checks refl checks_ran

-- The shop with a check on the liveness probe that has no Run function.
abbrev careless : Engine
careless = record {
  service_id = "shop";
  description = "";
  logger = some default_logger;
  livez = forgotten ∷ [];
  readyz = forgotten ∷ watchdog ∷ [];
  healthz = forgotten ∷ watchdog ∷ [];
}

careless_built :
    build "shop" "" [] ((liveness, forgotten) ∷ (readiness, watchdog) ∷ []) ≡ done careless
unfolding build new_engine apply_options register_all register_readiness_check
    register_liveness_check
careless_built = refl

abbrev forgotten_entry : ComponentStatus
forgotten_entry = record {
  component_id = "";
  component_type = "component";
  observed_value = nil;
  observed_unit = "";
  status = status_fail;
  affected_endpoints = [];
  time = "1970-01-01T00:00:00Z";
  output = "check has no Run function";
  links = [];
}

abbrev careless_response : HealthResponse
careless_response = record {
  status = status_fail;
  service_id = "shop";
  description = "";
  checks =
      ("system:time", system_time_entry (rfc3339_nano 0) ∷ [])
      ∷ ("app:todo", forgotten_entry ∷ [])
      ∷ ("app:watchdog", watched ∷ [])
      ∷ [];
}

careless_ran : run ready careless at_once background 0 ≡ returned (careless_response, logged) 2
unfolding run_readyz run_checks collect collect_one fork_join run_one observe aggregate emit_log
    system_time_entry rfc3339_nano assign lookup
careless_ran = refl

careless_fails : careless_response.status ≡ status_fail
careless_fails =
    no_run-fails background forgotten live ready careless at_once 0 2 careless_response logged refl
      (build-IsWellFormed "shop" "" [] ((liveness, forgotten) ∷ (readiness, watchdog) ∷ []) careless
        careless_built)
      refl (inl refl) careless_ran

run_total_example :
    (answer : HealthResponse) × (written : List LogEntry) × (w : ℕ) × (run ready shop at_once
        background 0
      ≡ returned (answer, written) w)
    × (answer.checks ≡ collect shop.readyz ((watched ∷ []) ∷ (refused ∷ []) ∷ []) (initial 0))
    × (w ≤ max 0 20)
run_total_example =
    run_total ready shop default_logger at_once background 0 20
      ((watched ∷ []) ∷ (refused ∷ []) ∷ []) refl Joined-in_time
