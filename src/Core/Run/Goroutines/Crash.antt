-- ===== src/Core/Run/Goroutines/Crash.antt =====
-- Why the process crashes.
use mathlib.Core.Path.{subst}
use go_health.Core.Run.{run_checks}
use go_health.Prelude.{ℕ, ◌≡◌, ◌≤◌, String, List, some, get_elem?}
use go_health.Go.Exec.{panicked}
use go_health.Go.Context.{Context}
use go_health.Core.Check.{Check}
use go_health.Core.Observe.{run_one}
use go_health.Core.Run.Goroutines.Defs.{
  Main, crashed, State, tick, launch, start, finish, unwind, crash, wait, Reach, begin, next,
}
use go_health.Core.Run.Goroutines.Refinement.{unwound-panicked}
use go_health.Core.Run.Goroutines.Panics.{some_delays-panicked}

module _ (ctx : Context) (checks : List Check) (t : ℕ) where
  abbrev Blame : Main → Type 0
  Blame (crashed message) =
      (i : ℕ) × (c : Check) × (started : ℕ) × (get_elem? checks i ≡ some c)
      × (t ≤ started)
      × (run_one ctx c started ≡ panicked message)
  Blame _ = Unit

  Reach-Blame : {s : State} → Reach ctx checks t s → Blame s.main
  Reach-Blame begin = tt
  Reach-Blame (next r (tick n)) = Reach-Blame r
  Reach-Blame (next r (launch i at below)) = tt
  Reach-Blame (next r (start i up at)) = Reach-Blame r
  Reach-Blame (next r (finish i c began u found up at has ran early)) = Reach-Blame r
  Reach-Blame (next r (unwind i c began message up at has ran)) = Reach-Blame r
  Reach-Blame (next {s} r (crash i began message up at)) =
      unwound-panicked ctx t checks s r i began message at
  Reach-Blame (next r (wait at none_left)) = tt

  -- The process crashes only with the panic of a check of the run, which started no earlier than the
  -- run itself.
  pub crashed-panicked :
      (s : State) (message : String)
      → Reach ctx checks t s
      → s.main ≡ crashed message
      → (i : ℕ) × (c : Check) × (started : ℕ) × (get_elem? checks i ≡ some c)
        × (t ≤ started)
        × (run_one ctx c started ≡ panicked message)
  crashed-panicked s message r at = subst Blame at (Reach-Blame r)

-- Where the process of the interleaved goroutines crashes, there are delays with which `run_checks`
-- panics.
pub crashed-run_checks :
    (ctx : Context) (checks : List Check) (t : ℕ) (s : State) (message : String)
    → Reach ctx checks t s
    → s.main ≡ crashed message
    → (delay : ℕ → ℕ) × (first : String) × (run_checks delay ctx checks t ≡ panicked first)
crashed-run_checks ctx checks t s message r at =
    let (i, c, started, has, after, ran) = crashed-panicked ctx checks t s message r at in
    some_delays-panicked ctx checks t i c started message has after ran
