-- ===== src/Core/Run/Wait.antt =====
-- When a run is over.
use go_health.Prelude.{ℕ, max, ◌≤◌, ◌≡◌, refl, ap, ◌⊎◌, String, List, [], ◌∷◌, map, arith}
use go_health.Go.Exec.{returned, fork_join, continue}
use go_health.Go.Exec.Join.{Joined, Last, fork_join-Joined, fork_join-Last, Joined-fork_join}
use go_health.Go.Context.{Context}
use go_health.Core.Check.{Check, ComponentStatus}
use go_health.Core.Observe.{run_one}
use go_health.Core.Run.{collect, run_checks}
use go_health.Core.Run.Slots.{initial, run_checks-Ran}

-- The run returns only after each check has returned, and as soon as the last has: no check ends
-- after it, and unless it ends at once, some check ends with it.
pub run_checks_slowest :
    (delay : ℕ → ℕ) (ctx : Context) (checks : List Check) (t u : ℕ)
    (out : List (String × List ComponentStatus))
    → run_checks delay ctx checks t ≡ returned out u
    → ((slots : List (List ComponentStatus)) × Joined delay t u (map (run_one ctx) checks) slots)
      × (t ≤ u)
      × ((u ≡ t) ⊎ Last delay t u (map (run_one ctx) checks))
run_checks_slowest delay ctx checks t u out h =
    let r = run_checks-Ran delay ctx checks t u out h in
    let (later, last) = fork_join-Last delay _ t u r.slots r.ended in
    ((r.slots, fork_join-Joined delay _ t u r.slots r.ended), later, last)

-- If each check returns by the reading `u`, the run returns by then too.
pub run_checks_total :
    (delay : ℕ → ℕ) (ctx : Context) (checks : List Check) (t u : ℕ)
    (slots : List (List ComponentStatus))
    → Joined delay t u (map (run_one ctx) checks) slots
    → (w : ℕ) × (run_checks delay ctx checks t ≡ returned (collect checks slots (initial t)) w)
      × (w ≤ max t u)
unfolding run_checks collect fork_join
run_checks_total delay ctx [] t u [] j = (t, refl, omega arith)
run_checks_total delay ctx (c ∷ checks) t u slots j =
    let (w, ended, early) = Joined-fork_join delay (map (run_one ctx) (c ∷ checks)) t u slots j in
    (
      w,
      ap (λ o. continue o (λ rs v. returned (collect (c ∷ checks) rs (initial t)) v)) ended,
      early,
    )
run_checks_total delay ctx [] t u (found ∷ slots) j = absurd j
