-- ===== src/Examples/Engines.antt =====
-- The engine of the shop from its registrations, and single checks of it.
use go_health.Prelude.{◌≡◌, refl, ◌≢◌, ◌↔◌, inl, String, List, [], ◌∷◌, none, some, All, ne_of_test}
use go_health.Go.Exec.{returned}
use go_health.Go.Context.{background}
use go_health.Go.Table.{lookup}
use go_health.Go.Time.{rfc3339_nano}
use go_health.Go.Json.{Json, str, encoded, value_field}
use go_health.Core.Status.{status_pass, status_warn, status_fail}
use go_health.Core.Check.{ComponentStatus}
use go_health.Core.Check.Encode.{component_fields}
use go_health.Core.Engine.{
  system_time_check_name, default_logger, done, panics, reserved_message, new_engine, apply_options,
  register_health_check, register_readiness_check, register_liveness_check,
}
use go_health.Core.Engine.History.{
  readiness, IsFree, register, register_all, register_cases, added, build, build-done,
}
use go_health.Core.Engine.Cascade.{IsWellFormed, build-IsWellFormed}
use go_health.Core.Observe.{run_one, observe}
use go_health.Core.Observe.Entries.{TellAll, run_one-TellAll}
use go_health.Core.Observe.Omitted.{run_one-omits}
use go_health.Core.Aggregate.{aggregate}
use go_health.Core.Aggregate.Strict.{Reports, aggregate_strict}
use go_health.Checks.DbCheck.{new}
use go_health.Examples.Shop.{
  alive, watchdog, watchdog_run, history, clash, shop, watched, refused, checks,
}

register_cases_example :
    ((register readiness shop clash ≡ panics reserved_message)
      ↔ (clash.name ≡ system_time_check_name))
    × ((clash.name ≢ system_time_check_name)
        ↔ (register readiness shop clash ≡ done (added readiness shop clash)))
register_cases_example = register_cases readiness shop clash

pub history-IsFree : All IsFree history
unfolding new
history-IsFree = (ne_of_test _ _ refl, (ne_of_test _ _ refl, (ne_of_test _ _ refl, tt)))

build-done_example : build "shop" "the shop" (none ∷ some default_logger ∷ []) history ≡ done shop
build-done_example =
    build-done "shop" "the shop" (none ∷ some default_logger ∷ []) history history-IsFree

pub shop_built : build "shop" "the shop" [] history ≡ done shop
unfolding build new_engine apply_options register_all register_health_check register_readiness_check
    register_liveness_check new
shop_built = refl

pub shop-IsWellFormed : IsWellFormed shop
shop-IsWellFormed = build-IsWellFormed "shop" "the shop" [] history shop shop_built

build-IsWellFormed_example : IsWellFormed shop
build-IsWellFormed_example = build-IsWellFormed "shop" "the shop" [] history shop shop_built

run_one-TellAll_example :
    (found : List ComponentStatus) × (run_one background watchdog 0 ≡ returned found 2)
    × TellAll watchdog 2 (alive ∷ []) found
run_one-TellAll_example =
    run_one-TellAll background watchdog 0 2 watchdog_run (alive ∷ []) refl refl

watchdog_ran : run_one background watchdog 0 ≡ returned (watched ∷ []) 2
unfolding run_one observe rfc3339_nano
watchdog_ran = refl

abbrev watched_fields : List (String × Json)
watched_fields =
    ("componentType", str "component")
    ∷ ("status", str "pass")
    ∷ ("time", str "1970-01-01T00:00:00.000000002Z")
    ∷ []

watched_encoded : component_fields watched ≡ encoded watched_fields
unfolding component_fields value_field
watched_encoded = refl

run_one-omits_example :
    (lookup "output" watched_fields ≡ none)
    × (lookup "affectedEndpoints" watched_fields ≡ none)
    × (lookup "time" watched_fields ≡ some (str (rfc3339_nano 2)))
run_one-omits_example =
    run_one-omits background watchdog 0 2 (watched ∷ []) watched watched_fields watchdog_ran
      (inl refl) refl watched_encoded

aggregate_strict_example :
    ((aggregate checks ≡ status_fail) ↔ Reports status_fail checks)
    × ((aggregate checks ≡ status_warn)
        ↔ (Reports status_warn checks × ¬ Reports status_fail checks))
    × ((aggregate checks ≡ status_pass)
        ↔ ((¬ Reports status_warn checks) × ¬ Reports status_fail checks))
aggregate_strict_example = aggregate_strict checks

abbrev two : List (String × List ComponentStatus)
two = ("a", watched ∷ []) ∷ ("b", refused ∷ []) ∷ []

abbrev two_back : List (String × List ComponentStatus)
two_back = ("b", refused ∷ []) ∷ ("a", watched ∷ []) ∷ []
