-- ===== src/Core/Aggregate/Statuses.antt =====
-- The status of a response depends on the statuses of its entries only.
use go_health.Prelude.{◌≡◌, refl, ap, fun_ext, String, List, [], ◌∷◌, map, ◌==◌, if◌then◌else◌}
use go_health.Core.Status.{Status, status_pass, status_warn}
use go_health.Core.Check.{ComponentStatus}
use go_health.Core.Aggregate.{after_scan, scan, aggregate_from, aggregate}

-- A function on the entries of a response.
abbrev pub map_entries :
    (ComponentStatus → ComponentStatus)
    → List (String × List ComponentStatus)
    → List (String × List ComponentStatus)
map_entries f checks = map (λ e. (e.0, map f e.1)) checks

module _ (f : ComponentStatus → ComponentStatus)
    (keeps : (cs : ComponentStatus) → (f cs).status ≡ cs.status) where
  scan-map :
      (overall : Status) (list : List ComponentStatus)
      → scan overall (map f list) ≡ scan overall list
  unfolding scan
  scan-map overall [] = refl
  scan-map overall (cs ∷ list) =
      rw (keeps cs, scan-map (if cs.status == status_warn then status_warn else overall) list) refl

  aggregate_from-map :
      (overall : Status) (checks : List (String × List ComponentStatus))
      → aggregate_from overall (map_entries f checks) ≡ aggregate_from overall checks
  unfolding aggregate_from
  aggregate_from-map overall [] = refl
  aggregate_from-map overall ((name, list) ∷ checks) =
      rw (scan-map overall list)
        (ap (after_scan (scan overall list)) (fun_ext (λ next. aggregate_from-map next checks)))

  pub aggregate-map_entries :
      (checks : List (String × List ComponentStatus))
      → aggregate (map_entries f checks) ≡ aggregate checks
  unfolding aggregate
  aggregate-map_entries checks = aggregate_from-map status_pass checks
