-- ===== src/Core/Run/Goroutines/Defs.antt =====
-- core/engine.go: the state of `runChecks` while its goroutines run, and its steps.
use go_health.Prelude.{
  ℕ, suc, ◌+◌, ◌-◌, ◌≤◌, ◌<◌, ◌≡◌, String, Bool, true, false, List, [], some, length, get_elem?,
}
use go_health.Prelude.Families.{update}
use go_health.Go.Exec.{returned, panicked}
use go_health.Go.Context.{Context}
use go_health.Core.Check.{Check, ComponentStatus}
use go_health.Core.Observe.{run_one}

-- Where the goroutine of a check stands, with the reading at its start. `unwound`: its check has
-- panicked, the deferred `wg.Done()` has run, and the panic is about to end the process.
pub data Phase : Type 0 where
  unborn : Phase
  ready : Phase
  running : (started : ℕ) → Phase
  ended : (started : ℕ) → Phase
  unwound : (started : ℕ) → (message : String) → Phase

-- Where the main goroutine stands: before the round `i` of the loop, past `wg.Wait()`, or the
-- process has crashed.
pub data Main : Type 0 where
  launching : (i : ℕ) → Main
  joined : Main
  crashed : String → Main

pub record State : Type 0 where
  pub clock : ℕ
  pub main : Main
  -- the counter of the wait group
  pub wg : ℕ
  pub phase : ℕ → Phase
  -- `results`
  pub slot : ℕ → List ComponentStatus

-- Before the loop.
abbrev pub init : ℕ → State
init t = record { clock = t; main = launching 0; wg = 0; phase = λ i. unborn; slot = λ i. [] }

abbrev pub is_crashed : Main → Bool
is_crashed (crashed _) = true
is_crashed _ = false

pub data Step (ctx : Context) (checks : List Check) (s : State) : State → Type 0 where
  -- time passes
  tick : (n : ℕ) → Step ctx checks s (record s { clock = s.clock + n })
  -- wg.Add(1); go func …
  launch :
      (i : ℕ)
      → s.main ≡ launching i
      → i < length checks
      → Step ctx checks s
          (record s { main = launching (suc i); wg = s.wg + 1; phase = update s.phase i ready })
  -- the scheduler starts a goroutine
  start :
      (i : ℕ)
      → is_crashed s.main ≡ false
      → s.phase i ≡ ready
      → Step ctx checks s (record s { phase = update s.phase i (running s.clock) })
  -- the check has returned: results[i] = …; wg.Done()
  finish :
      (i : ℕ) (c : Check) (t u : ℕ) (found : List ComponentStatus)
      → is_crashed s.main ≡ false
      → s.phase i ≡ running t
      → get_elem? checks i ≡ some c
      → run_one ctx c t ≡ returned found u
      → u ≤ s.clock
      → Step ctx checks s (record s {
        wg = s.wg - 1;
        phase = update s.phase i (ended t);
        slot = update s.slot i found;
      })
  -- the check panics: the deferred wg.Done() runs, and the slot stays nil
  unwind :
      (i : ℕ) (c : Check) (t : ℕ) (message : String)
      → is_crashed s.main ≡ false
      → s.phase i ≡ running t
      → get_elem? checks i ≡ some c
      → run_one ctx c t ≡ panicked message
      → Step ctx checks s (record s { wg = s.wg - 1; phase = update s.phase i (unwound t message) })
  -- the panic, which nothing recovers, ends the process
  crash :
      (i t : ℕ) (message : String)
      → is_crashed s.main ≡ false
      → s.phase i ≡ unwound t message
      → Step ctx checks s (record s { main = crashed message })
  -- wg.Wait() returns
  wait :
      s.main ≡ launching (length checks) → s.wg ≡ 0 → Step ctx checks s (record s { main = joined })

pub data Reach (ctx : Context) (checks : List Check) (t : ℕ) : State → Type 0 where
  begin : Reach ctx checks t (init t)
  next : {s s' : State} → Reach ctx checks t s → Step ctx checks s s' → Reach ctx checks t s'
