-- ===== src/Core/Aggregate.antt =====
-- core/engine.go: `aggregate`, the status of a whole response.
pub mod Strict
pub mod Order
pub mod Statuses
use go_health.Prelude.{String, List, [], ◌∷◌, ◌==◌, if◌then◌else◌}
use go_health.Core.Status.{Status, status_pass, status_warn, status_fail}
use go_health.Core.Check.{ComponentStatus}

-- What the inner loop of `aggregate` does: it returns, or leaves a value of `overall`.
pub data Scan : Type 0 where
  returns : Status → Scan
  leaves : Status → Scan

abbrev after_scan : Scan → (Status → Status) → Status
after_scan (returns s) rest = s
after_scan (leaves overall) rest = rest overall

scan : Status → List ComponentStatus → Scan
scan overall [] = leaves overall
scan overall (cs ∷ list) =
    let rest = scan (if cs.status == status_warn then status_warn else overall) list in
    if cs.status == status_fail then returns status_fail else rest

aggregate_from : Status → List (String × List ComponentStatus) → Status
unfolding scan
aggregate_from overall [] = overall
aggregate_from overall ((_, list) ∷ checks) =
    after_scan (scan overall list) (λ overall'. aggregate_from overall' checks)

unfoldable pub aggregate : List (String × List ComponentStatus) → Status
unfolding aggregate_from
aggregate checks = aggregate_from status_pass checks
