-- ===== src/Checks/Shown.antt =====
-- The slots of a run, where each check looks after something that is up or down.
use go_health.Prelude.{
  ℕ, ◌+◌, ◌≤◌, ◌≡◌, sym, ◌∙◌, ◌⊎◌, inl, inr, Bool-cases, true, false, List, [], ◌∷◌, map, All, Any,
  arith,
}
use go_health.Go.Exec.{returned}
use go_health.Go.Exec.Join.{shift, Joined}
use go_health.Go.Context.{Context, is_done}
use go_health.Core.Status.{Status, status_pass, status_fail}
use go_health.Core.Check.{Result, Check, ComponentStatus}
use go_health.Core.Aggregate.Strict.{Has}
use go_health.Core.Observe.{run_one, check_context}
use go_health.Core.Observe.Entries.{TellAll}
use go_health.Core.Observe.Inverse.{run_one-inv, TellAll-Any}
use go_health.Core.Run.Verdict.{Observed}
use go_health.Checks.Health.{Window, Live-IsClosed, Shows}

TellAll-All :
    (s : Status) (c : Check) (u : ℕ) (results : List Result) (found : List ComponentStatus)
    → TellAll c u results found
    → All (λ r. r.status ≡ s) results
    → All (λ cs. cs.status ≡ s) found
TellAll-All s c u [] [] told h = tt
TellAll-All s c u (r ∷ results) (cs ∷ found) (tells, told) (here, later) =
    (tells.status ∙ here, TellAll-All s c u results found told later)
TellAll-All s c u [] (cs ∷ found) told h = absurd told
TellAll-All s c u (r ∷ results) [] told h = absurd told

-- Every observation has the status.
abbrev pub Uniform : Status → List (List ComponentStatus) → Type 0
Uniform s slots = All (All (λ cs. cs.status ≡ s)) slots

module _ (ctx : Context) where
  -- The context of some check is done at the reading `u`, where the checks started at `t` and their
  -- delays.
  abbrev pub Overdue : (ℕ → ℕ) → ℕ → ℕ → List Check → Type 0
  Overdue delay t u [] = ⊥
  Overdue delay t u (c ∷ checks) =
      (is_done (check_context ctx c (t + delay 0)) u ≡ true) ⊎ Overdue (shift delay) t u checks

module _ (ctx : Context) (window : Window) where
  down-Has :
      (c : Check) (t u : ℕ) (found : List ComponentStatus)
      → Shows window false c
      → window.from ≤ t
      → u ≤ window.until
      → run_one ctx c t ≡ returned found u
      → Has status_fail found
  down-Has c t u found shows after before ran =
      let (results, ended, told) = run_one-inv ctx c t u shows.run found shows.has_run ran in
      (TellAll-Any status_fail c u results found told).1
        (shows.gives (check_context ctx c t) t results u after ended before)

  up-All :
      (c : Check) (t u w : ℕ) (found : List ComponentStatus)
      → Shows window true c
      → window.from ≤ t
      → w ≤ window.until
      → run_one ctx c t ≡ returned found u
      → u ≤ w
      → is_done (check_context ctx c t) w ≡ false
      → All (λ cs. cs.status ≡ status_pass) found
  up-All c t u w found shows after before ran early live =
      let (results, ended, told) = run_one-inv ctx c t u shows.run found shows.has_run ran in
      TellAll-All status_pass c u results found told (
        shows.gives (check_context ctx c t) t results u after ended
          (Live-IsClosed window true (check_context ctx c t) u w early (before, live)))

  module _ (t u : ℕ) (after : window.from ≤ t) (before : u ≤ window.until) where
    pub down-Observed :
        (delay : ℕ → ℕ) (checks : List Check) (slots : List (List ComponentStatus))
        → Joined delay t u (map (run_one ctx) checks) slots
        → Any (Shows window false) checks
        → Observed status_fail slots
    down-Observed delay (c ∷ checks) (found ∷ slots) ((v, ran, early), j) (inl shows) =
        inl (down-Has c (t + delay 0) v found shows (omega arith) (omega arith) ran)
    down-Observed delay (c ∷ checks) (found ∷ slots) (_, j) (inr later) =
        inr (down-Observed (shift delay) checks slots j later)
    down-Observed delay [] slots j h = absurd h
    down-Observed delay (c ∷ checks) [] j h = absurd j

    pub up-Uniform :
        (delay : ℕ → ℕ) (checks : List Check) (slots : List (List ComponentStatus))
        → Joined delay t u (map (run_one ctx) checks) slots
        → All (Shows window true) checks
        → Uniform status_pass slots ⊎ Overdue ctx delay t u checks
    up-Uniform delay [] [] j h = inl tt
    up-Uniform delay (c ∷ checks) (found ∷ slots) ((v, ran, early), j) (shows, later) =
        elim (Bool-cases (is_done (check_context ctx c (t + delay 0)) u)) [
          | inl over ↦ inr (inl over)
          | inr live ↦ elim (up-Uniform (shift delay) checks slots j later) [
            | inl passes ↦
                inl (
                  up-All c (t + delay 0) v u found shows (omega arith) before ran early live,
                  passes,
                )
            | inr over ↦ inr (inr over)
          ]
        ]
    up-Uniform delay [] (found ∷ slots) j h = absurd j
    up-Uniform delay (c ∷ checks) [] j h = absurd j

-- No other status is observed then.
Uniform-entries :
    (s : Status) (found : List ComponentStatus)
    → ¬ (status_pass ≡ s)
    → All (λ cs. cs.status ≡ status_pass) found
    → ¬ Has s found
Uniform-entries s (cs ∷ found) other (here, later) (inl h) = other (sym here ∙ h)
Uniform-entries s (cs ∷ found) other (here, later) (inr h) = Uniform-entries s found other later h
Uniform-entries s [] other _ h = absurd h

pub Uniform-Observed :
    (s : Status) (slots : List (List ComponentStatus))
    → ¬ (status_pass ≡ s)
    → Uniform status_pass slots
    → ¬ Observed s slots
Uniform-Observed s (found ∷ slots) other (here, later) (inl h) =
    Uniform-entries s found other here h
Uniform-Observed s (found ∷ slots) other (here, later) (inr h) =
    Uniform-Observed s slots other later h
Uniform-Observed s [] other _ h = absurd h
