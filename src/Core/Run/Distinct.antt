-- ===== src/Core/Run/Distinct.antt =====
-- core/engine.go: the map of checks of which no two have the same name.
use mathlib.Core.List.{append_assoc, append-nil}
use go_health.Prelude.{
  ◌≡◌, ◌≢◌, refl, sym, ap, ◌∙◌, String, List, [], ◌∷◌, ◌++◌, none, All, All-append, test_of_ne,
}
use go_health.Go.Table.{lookup, assign, IsFresh}
use go_health.Core.Check.{Check, ComponentStatus}
use go_health.Core.Engine.Reordered.{IsDistinct}
use go_health.Core.Run.{existing, collect_one, collect}

-- The entry of a check; none where it found nothing.
abbrev pub entry_of : Check → List ComponentStatus → List (String × List ComponentStatus)
entry_of c [] = []
entry_of c (r ∷ rs) = (c.name, r ∷ rs) ∷ []

abbrev pub entries_of :
    List Check → List (List ComponentStatus) → List (String × List ComponentStatus)
entries_of (c ∷ checks) (found ∷ slots) = entry_of c found ++ entries_of checks slots
entries_of _ _ = []

lookup-fresh :
    (k : String) (out : List (String × List ComponentStatus)) → IsFresh k out → lookup k out ≡ none
unfolding lookup
lookup-fresh k [] h = refl
lookup-fresh k ((j, v) ∷ out) (here, later) = rw (test_of_ne j k here) (lookup-fresh k out later)

assign-fresh :
    (k : String) (v : List ComponentStatus) (out : List (String × List ComponentStatus))
    → IsFresh k out
    → assign k v out ≡ out ++ (k, v) ∷ []
unfolding assign
assign-fresh k v [] h = refl
assign-fresh k v ((j, w) ∷ out) (here, later) =
    rw (test_of_ne j k here) (ap (λ rest. (j, w) ∷ rest) (assign-fresh k v out later))

collect_one-fresh :
    (c : Check) (found : List ComponentStatus) (out : List (String × List ComponentStatus))
    → IsFresh c.name out
    → collect_one c found out ≡ out ++ entry_of c found
unfolding collect_one
collect_one-fresh c [] out h = sym (append-nil out)
collect_one-fresh c (r ∷ rs) out h =
    ap (λ entry. assign c.name (existing entry ++ (r ∷ rs)) out) (lookup-fresh c.name out h)
    ∙ assign-fresh c.name (r ∷ rs) out h

IsFresh-append :
    (c d : Check) (found : List ComponentStatus) (out : List (String × List ComponentStatus))
    → c.name ≢ d.name
    → IsFresh d.name out
    → IsFresh d.name (out ++ entry_of c found)
IsFresh-append c d [] out other h = All-append _ out [] h tt
IsFresh-append c d (r ∷ rs) out other h = All-append _ out ((c.name, r ∷ rs) ∷ []) h (other, tt)

All-IsFresh :
    (c : Check) (found : List ComponentStatus) (checks : List Check)
    (out : List (String × List ComponentStatus))
    → All (λ d. c.name ≢ d.name) checks
    → All (λ d. IsFresh d.name out) checks
    → All (λ d. IsFresh d.name (out ++ entry_of c found)) checks
All-IsFresh c found [] out others h = tt
All-IsFresh c found (d ∷ checks) out (other, others) (here, later) =
    (IsFresh-append c d found out other here, All-IsFresh c found checks out others later)

-- Where no name stands twice, each check has its own entry, in the order of the checks.
pub collect-distinct :
    (checks : List Check) (slots : List (List ComponentStatus))
    (out : List (String × List ComponentStatus))
    → IsDistinct checks
    → All (λ d. IsFresh d.name out) checks
    → collect checks slots out ≡ out ++ entries_of checks slots
unfolding collect
collect-distinct [] slots out distinct h = sym (append-nil out)
collect-distinct (c ∷ checks) [] out distinct h = sym (append-nil out)
collect-distinct (c ∷ checks) (found ∷ slots) out (others, distinct) (here, later) =
    ap (collect checks slots) (collect_one-fresh c found out here)
    ∙ collect-distinct checks slots (out ++ entry_of c found) distinct
        (All-IsFresh c found checks out others later)
    ∙ append_assoc out (entry_of c found) (entries_of checks slots)
