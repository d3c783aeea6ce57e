-- ===== src/Core/Run/Erased.antt =====
-- core/engine.go: the entries of a response without their stamps.
use go_health.Prelude.{
  ◌≡◌, refl, sym, ap, ◌∙◌, String, List, [], ◌∷◌, ◌++◌, map, Bool-cases, inl, inr, ◌==◌, arith,
}
use mathlib.Core.List.{map-append}
use go_health.Go.Table.{lookup, assign}
use go_health.Core.Check.{Result, Check, ComponentStatus}
use go_health.Core.Aggregate.Statuses.{map_entries}
use go_health.Core.Observe.{observe}
use go_health.Core.Run.{existing, collect_one, collect}

abbrev pub erase : ComponentStatus → ComponentStatus
erase cs = record cs { time = "" }

pub erase-observe :
    (c : Check) (stamp : String) (r : Result) → erase (observe c stamp r) ≡ observe c "" r
unfolding observe
erase-observe c stamp r = ground arith

pub map-erase-observe :
    (c : Check) (stamp : String) (results : List Result)
    → map erase (map (observe c stamp) results) ≡ map (observe c "") results
map-erase-observe c stamp [] = refl
map-erase-observe c stamp (r ∷ results) =
    rw (erase-observe c stamp r, map-erase-observe c stamp results) refl

-- A function on entries commutes with the collection of the slots.
module _ (f : ComponentStatus → ComponentStatus) where
  lookup-map_entries :
      (k : String) (out : List (String × List ComponentStatus))
      → existing (lookup k (map_entries f out)) ≡ map f (existing (lookup k out))
  unfolding lookup
  lookup-map_entries k [] = refl
  lookup-map_entries k ((j, v) ∷ out) = elim (Bool-cases (j == k)) [
    | inl same ↦ rw same refl
    | inr other ↦ rw other (lookup-map_entries k out)
  ]

  assign-map_entries :
      (k : String) (v : List ComponentStatus) (out : List (String × List ComponentStatus))
      → assign k (map f v) (map_entries f out) ≡ map_entries f (assign k v out)
  unfolding assign
  assign-map_entries k v [] = refl
  assign-map_entries k v ((j, w) ∷ out) = elim (Bool-cases (j == k)) [
    | inl same ↦ rw same refl
    | inr other ↦ rw other (ap (λ rest. (j, map f w) ∷ rest) (assign-map_entries k v out))
  ]

  collect_one-map_entries :
      (c : Check) (found : List ComponentStatus) (out : List (String × List ComponentStatus))
      → collect_one c (map f found) (map_entries f out) ≡ map_entries f (collect_one c found out)
  unfolding collect_one
  collect_one-map_entries c [] out = refl
  collect_one-map_entries c (r ∷ rs) out =
      let before = existing (lookup c.name out) in
      ap (λ v. assign c.name (v ++ f r ∷ map f rs) (map_entries f out))
        (lookup-map_entries c.name out)
      ∙ ap (λ v. assign c.name v (map_entries f out)) (sym (map-append f before (r ∷ rs)))
      ∙ assign-map_entries c.name (before ++ r ∷ rs) out

  pub collect-map_entries :
      (checks : List Check) (slots : List (List ComponentStatus))
      (out : List (String × List ComponentStatus))
      → collect checks (map (map f) slots) (map_entries f out)
        ≡ map_entries f (collect checks slots out)
  unfolding collect
  collect-map_entries [] slots out = refl
  collect-map_entries (c ∷ checks) [] out = refl
  collect-map_entries (c ∷ checks) (found ∷ slots) out =
      ap (collect checks (map (map f) slots)) (collect_one-map_entries c found out)
      ∙ collect-map_entries checks slots (collect_one c found out)
