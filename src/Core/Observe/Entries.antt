-- ===== src/Core/Observe/Entries.antt =====
-- What `runOne` makes of the observations of a check.
use mathlib.Core.Path.{subst₂}
use go_health.Prelude.{ℕ, ◌≡◌, refl, sym, ◌≢◌, ◌⊎◌, List, [], ◌∷◌, none, some, map, All, arith}
use text.Mathlib.TextEquality.{eq_iff}
use go_health.Go.Exec.{returned, Exec, continue-eq-returned}
use go_health.Go.Context.{Context}
use go_health.Go.Time.{rfc3339_nano}
use go_health.Core.Status.{status_pass, status_fail}
use go_health.Core.Check.{Result, Check, ComponentStatus}
use go_health.Core.Observe.{no_run_result, invoke, observe, check_context, run_one}

-- An entry that passes carries no diagnostics.
abbrev pub IsSuppressed : ComponentStatus → Type 0
IsSuppressed cs = (cs.status ≢ status_pass) ⊎ ((cs.output ≡ "") × (cs.affected_endpoints ≡ []))

-- The entry `cs` of the response says what the result `r` of the check `c` says.
pub record Tells (c : Check) (ended : ℕ) (r : Result) (cs : ComponentStatus) : Type 0 where
  pub component_id : cs.component_id ≡ r.component_id
  pub component_type : cs.component_type ≡ c.component_type
  pub observed_value : cs.observed_value ≡ r.observed_value
  pub observed_unit : cs.observed_unit ≡ r.observed_unit
  pub status : cs.status ≡ r.status
  pub links : cs.links ≡ r.links
  pub time : cs.time ≡ rfc3339_nano ended
  pub suppressed : IsSuppressed cs
  pub kept :
      (r.status ≡ status_pass)
      ⊎ ((cs.output ≡ r.output) × (cs.affected_endpoints ≡ r.affected_endpoints))

-- One entry for each result, in order.
abbrev pub TellAll : Check → ℕ → List Result → List ComponentStatus → Type 0
TellAll c ended [] [] = Unit
TellAll c ended (r ∷ results) (cs ∷ found) = Tells c ended r cs × TellAll c ended results found
TellAll c ended _ _ = ⊥

observe-Tells :
    (c : Check) (ended : ℕ) (r : Result) → Tells c ended r (observe c (rfc3339_nano ended) r)
unfolding observe
observe-Tells c ended r = ground (arith, eq_iff r.status status_pass)

pub map-observe-TellAll :
    (c : Check) (ended : ℕ) (results : List Result)
    → TellAll c ended results (map (observe c (rfc3339_nano ended)) results)
map-observe-TellAll c ended [] = tt
map-observe-TellAll c ended (r ∷ results) =
    (observe-Tells c ended r, map-observe-TellAll c ended results)

-- Where the check has a Run function that returns, runOne returns at the same reading, with one
-- entry for each result, in order: it says what the result says, under the type of the check and
-- the reading at the end, but for the diagnostics of an observation that passes, which are dropped.
pub run_one-TellAll :
    (parent : Context) (c : Check) (t u : ℕ) (run : Context → Exec (List Result))
    (results : List Result)
    → c.run ≡ some run
    → run (check_context parent c t) t ≡ returned results u
    → (found : List ComponentStatus) × (run_one parent c t ≡ returned found u)
      × TellAll c u results found
unfolding run_one check_context
run_one-TellAll parent c t u run results has_run ran =
    (map (observe c (rfc3339_nano u)) results, rw (has_run, ran), map-observe-TellAll c u results)

-- Without a Run function, runOne returns at once, with a single entry that fails and says why.
pub run_one-no_run :
    (parent : Context) (c : Check) (t : ℕ)
    → c.run ≡ none
    → (cs : ComponentStatus) × (run_one parent c t ≡ returned (cs ∷ []) t)
      × (cs.status ≡ status_fail)
      × (cs.output ≡ "check has no Run function")
unfolding run_one observe
run_one-no_run parent c t e = (observe c (rfc3339_nano t) no_run_result, rw e, refl, refl)

-- What holds of an entry whatever the result was.
abbrev pub IsDressed : Check → ℕ → ComponentStatus → Type 0
IsDressed c ended cs =
    IsSuppressed cs × (cs.time ≡ rfc3339_nano ended) × (cs.component_type ≡ c.component_type)

map-observe-All :
    (c : Check) (ended : ℕ) (results : List Result)
    → All (IsDressed c ended) (map (observe c (rfc3339_nano ended)) results)
map-observe-All c ended [] = tt
map-observe-All c ended (r ∷ results) =
    let told = observe-Tells c ended r in
    ((told.suppressed, told.time, told.component_type), map-observe-All c ended results)

-- Whatever the check did, each entry has the type of the check and the stamp of its end, and carries
-- no diagnostics if it passes.
pub run_one-All :
    (parent : Context) (c : Check) (t u : ℕ) (found : List ComponentStatus)
    → run_one parent c t ≡ returned found u
    → All (IsDressed c u) found
unfolding run_one
run_one-All parent c t u found ran =
    let (results, v, _, last) =
      continue-eq-returned (invoke c.run (check_context parent c t) t)
        (λ rs w. returned (map (observe c (rfc3339_nano w)) rs) w) ran in
    let same : found ≡ map (observe c (rfc3339_nano v)) results = cc in
    let end : v ≡ u = cc in
    subst₂ (λ (f : List ComponentStatus) (w : ℕ). All (IsDressed c w) f) (sym same) end
      (map-observe-All c v results)
