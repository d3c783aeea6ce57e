-- ===== src/Examples/Goroutines.antt =====
-- The goroutines of the readiness probe of the shop, step by step.
use go_health.Prelude.{
  map, String, ℕ, zero, suc, ◌+◌, ◌*◌, ◌≤◌, ◌<◌, ◌⊎◌, true, false, ◌≡◌, refl, List, [], ◌∷◌, some,
  get_elem?, arith,
}
use go_health.Prelude.Families.{tabulate}
use go_health.Go.Exec.{fork_join, returned, panicked, panic}
use go_health.Go.Context.{background}
use go_health.Go.Time.{rfc3339_nano}
use go_health.Core.Check.{Check, ComponentStatus}
use go_health.Core.Observe.{run_one, observe}
use go_health.Core.Observe.Entries.{run_one-TellAll}
use go_health.Core.Run.{collect, run_checks}
use go_health.Core.Run.Slots.{initial}
use go_health.Core.Run.Goroutines.Defs.{
  State, Reach, begin, next, tick, launch, start, finish, unwind, crash, wait, joined,
}
use go_health.Core.Run.Goroutines.Invariant.{is_unwound}
use go_health.Core.Run.Goroutines.Refinement.{joined-run_checks}
use go_health.Core.Run.Goroutines.Adequacy.{fork_join-joined}
use go_health.Core.Run.Goroutines.Crash.{crashed-run_checks}
use go_health.Core.Run.Goroutines.Progress.{
  moves, remaining, moves-remaining, Leads, reaches-joined,
}
use go_health.Checks.DbCheck.{new}
use go_health.Checks.DbCheck.Verdict.{new_reports}
use go_health.Examples.Shop.{at_once, alive, watchdog, watchdog_run, pinger, shop, watched, refused}

pub watchdog_returns : run_one background watchdog 0 ≡ returned (watched ∷ []) 2
unfolding run_one observe rfc3339_nano
watchdog_returns = refl

abbrev late_refused : ComponentStatus
late_refused = record refused { time = "1970-01-01T00:00:00.000000012Z" }

pub database_returns : run_one background (new pinger) 3 ≡ returned (late_refused ∷ []) 12
unfolding run_one observe rfc3339_nano new
database_returns = refl

-- The goroutine of the database starts late and ends first.
abbrev halfway : (s : State) × Reach background shop.readyz 0 s
halfway = (
  _,
  next
      (next
        (next (next (next (next begin (launch 0 refl (omega arith))) (start 0 refl refl)) (tick 3))
          (launch 1 refl (omega arith)))
        (start 1 refl refl))
      (tick 20),
)

abbrev pub over : (s : State) × Reach background shop.readyz 0 s
over = (
  _,
  next
      (next
        (next halfway.1 (
          finish 1 (new pinger) 3 12 (late_refused ∷ []) refl refl refl database_returns
            (omega arith)))
        (finish 0 watchdog 0 2 (watched ∷ []) refl refl refl watchdog_returns (omega arith)))
      (wait refl refl),
)

joined-run_checks_example :
    (((i : ℕ) → i < 2 → is_unwound (over.0.phase i) ≡ false)
      × ((delay : ℕ → ℕ) × (w : ℕ) × (run_checks delay background shop.readyz 0
            ≡ returned (collect shop.readyz (tabulate 2 over.0.slot) (initial 0)) w)
          × (w ≤ over.0.clock)))
    ⊎ ((i : ℕ) × (i < 2)
        × (is_unwound (over.0.phase i) ≡ true)
        × (over.0.slot i ≡ [])
        × ((delay : ℕ → ℕ) × (first : String) × (run_checks delay background shop.readyz 0
              ≡ panicked first)))
joined-run_checks_example = joined-run_checks background 0 shop.readyz over.0 over.1 refl

steps_halfway : moves background shop.readyz 0 halfway.1 + remaining 2 halfway.0 ≡ 3 * 2 + 1
steps_halfway = moves-remaining background shop.readyz 0 halfway.1 refl

each_returns :
    (i : ℕ) (c : Check)
    → get_elem? shop.readyz i ≡ some c
    → (began : ℕ)
    → (found : List ComponentStatus) × (v : ℕ) × (run_one background c began ≡ returned found v)
each_returns zero c has began =
    let same : watchdog ≡ c = cc in
    let (found, ran, _) =
      run_one-TellAll background watchdog began (began + 2) watchdog_run (alive ∷ []) refl refl in
    rw (← same) (found, began + 2, ran)
each_returns (suc zero) c has began =
    let same : new pinger ≡ c = cc in
    let (cs, ran, _, _) =
      new_reports pinger background began (began + 9) (some "connection refused") refl in
    rw (← same) (cs ∷ [], began + 9, ran)
each_returns (suc (suc i)) c has began = cc

reaches-joined_example : (s : State) × Leads background shop.readyz halfway.0 s × (s.main ≡ joined)
reaches-joined_example = reaches-joined background shop.readyz 0 each_returns halfway.1 refl

-- A check that panics.
abbrev faulty : Check
faulty = record watchdog { name = "app:faulty"; run = some (λ ctx. panic "index out of range") }

faulty_panics : run_one background faulty 5 ≡ panicked "index out of range"
unfolding run_one
faulty_panics = refl

abbrev down : (s : State) × Reach background (watchdog ∷ faulty ∷ []) 5 s
down = (
  _,
  next
      (next
        (next (next (next begin (launch 0 refl (omega arith))) (launch 1 refl (omega arith)))
          (start 1 refl refl))
        (unwind 1 faulty 5 "index out of range" refl refl refl faulty_panics))
      (crash 1 5 "index out of range" refl refl),
)

-- The main goroutine is past `wg.Wait()` while the panic of the only check is about to end the process.
abbrev doomed : (s : State) × Reach background (faulty ∷ []) 5 s
doomed = (
  _,
  next
      (next (next (next begin (launch 0 refl (omega arith))) (start 0 refl refl))
        (unwind 0 faulty 5 "index out of range" refl refl refl faulty_panics))
      (wait refl refl),
)

doomed_slot : tabulate 1 doomed.0.slot ≡ [] ∷ []
doomed_slot = refl

crashed-run_checks_example :
    (delay : ℕ → ℕ) × (first : String) × (run_checks delay background (watchdog ∷ faulty ∷ []) 5
      ≡ panicked first)
crashed-run_checks_example =
    crashed-run_checks background (watchdog ∷ faulty ∷ []) 5 down.0 "index out of range" down.1 refl

joined_at_once :
    fork_join at_once (map (run_one background) shop.readyz) 0
    ≡ returned ((watched ∷ []) ∷ (refused ∷ []) ∷ []) 9
unfolding fork_join run_one observe rfc3339_nano new
joined_at_once = refl

fork_join-joined_example :
    (s : State) × Reach background shop.readyz 0 s
    × (s.main ≡ joined)
    × (tabulate 2 s.slot ≡ (watched ∷ []) ∷ (refused ∷ []) ∷ [])
fork_join-joined_example =
    fork_join-joined background shop.readyz 0 9 at_once ((watched ∷ []) ∷ (refused ∷ []) ∷ [])
      joined_at_once
