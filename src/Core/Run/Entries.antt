-- ===== src/Core/Run/Entries.antt =====
-- What stands under a name in the map that `runChecks` returns.
use text.Mathlib.TextEquality.{eq_iff}
use mathlib.Core.List.{append_assoc, append-nil}
use go_health.Prelude.{
  ◌≡◌, refl, sym, ◌∙◌, ap, String, List, [], ◌∷◌, ◌++◌, Option, some, arith, Bool-cases, inl, inr,
  ◌==◌, if◌then◌else◌,
}
use go_health.Go.Table.{lookup, lookup-assign}
use go_health.Core.Check.{Check, ComponentStatus}
use go_health.Core.Run.{existing, collect_one, collect}

-- The observations of the checks with the name, in the order of registration.
abbrev pub found_under : String → List Check → List (List ComponentStatus) → List ComponentStatus
found_under n (c ∷ checks) (found ∷ slots) =
    if c.name == n then found ++ found_under n checks slots else found_under n checks slots
found_under n _ _ = []

-- An entry with more observations behind it; where there are none, it is as it was.
abbrev pub joined :
    Option (List ComponentStatus) → List ComponentStatus → Option (List ComponentStatus)
joined entry [] = entry
joined entry (x ∷ xs) = some (existing entry ++ x ∷ xs)

joined-append :
    (entry : Option (List ComponentStatus)) (xs ys : List ComponentStatus)
    → joined (joined entry xs) ys ≡ joined entry (xs ++ ys)
joined-append entry [] ys = refl
joined-append entry (x ∷ xs) [] = ap some (ap (λ l. existing entry ++ x ∷ l) (sym (append-nil xs)))
joined-append entry (x ∷ xs) (y ∷ ys) = ap some (append_assoc (existing entry) (x ∷ xs) (y ∷ ys))

lookup-collect_one :
    (n : String) (c : Check) (found : List ComponentStatus)
    (out : List (String × List ComponentStatus))
    → lookup n (collect_one c found out) ≡ joined (lookup n out) (if c.name == n then found else [])
unfolding collect_one
lookup-collect_one n c [] out = ground arith
lookup-collect_one n c (x ∷ xs) out =
    let grown = existing (lookup c.name out) ++ x ∷ xs in
    ground (arith, lookup-assign c.name n grown out, eq_iff c.name n)

pub lookup-collect :
    (n : String) (checks : List Check) (slots : List (List ComponentStatus))
    (out : List (String × List ComponentStatus))
    → lookup n (collect checks slots out) ≡ joined (lookup n out) (found_under n checks slots)
unfolding collect
lookup-collect n [] slots out = refl
lookup-collect n (c ∷ checks) [] out = refl
lookup-collect n (c ∷ checks) (found ∷ slots) out =
    lookup-collect n checks slots (collect_one c found out)
    ∙ ap (λ entry. joined entry (found_under n checks slots)) (lookup-collect_one n c found out)
    ∙ elim (Bool-cases (c.name == n)) [
      | inl same ↦ rw same (joined-append (lookup n out) found (found_under n checks slots))
      | inr other ↦ rw other
    ]
