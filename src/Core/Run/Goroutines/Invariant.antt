-- ===== src/Core/Run/Goroutines/Invariant.antt =====
-- What holds of the goroutines in every reachable state.
use go_health.Prelude.{
  ℕ, ◌≤◌, ◌<◌, ◌≡◌, refl, sym, Bool, true, false, List, [], some, length, get_elem?, arith,
}
use go_health.Prelude.Families.{count, count_none}
use go_health.Go.Exec.{returned, panicked}
use go_health.Go.Context.{Context}
use go_health.Core.Check.{Check, ComponentStatus}
use go_health.Core.Observe.{run_one}
use go_health.Core.Run.Goroutines.Defs.{
  Phase, unborn, ready, running, ended, unwound, Main, launching, joined, crashed, State, init,
}

-- A goroutine that the wait group counts.
abbrev pub is_active : Phase → Bool
is_active ready = true
is_active (running _) = true
is_active _ = false

-- A goroutine whose check has panicked.
abbrev pub is_unwound : Phase → Bool
is_unwound (unwound _ _) = true
is_unwound _ = false

-- The loop is within its bounds.
abbrev pub IsBounded : ℕ → Main → Type 0
IsBounded n (launching k) = k ≤ n
IsBounded n _ = Unit

-- A goroutine was launched, unless it is unborn.
abbrev pub WasLaunched : ℕ → Main → ℕ → Phase → Type 0
WasLaunched n (launching k) i unborn = k ≤ i
WasLaunched n (launching k) i _ = i < k
WasLaunched n joined i unborn = n ≤ i
WasLaunched n joined i (ended _) = i < n
WasLaunched n joined i (unwound _ _) = i < n
WasLaunched n joined i _ = ⊥
WasLaunched n (crashed _) i _ = Unit

-- What a goroutine has done, with what its slot holds: nil until it has ended, and for ever when its
-- check panics.
abbrev pub HasRun : Context → List Check → ℕ → ℕ → ℕ → Phase → List ComponentStatus → Type 0
HasRun ctx checks t clock i (running started) found =
    (t ≤ started) × (started ≤ clock) × (found ≡ [])
HasRun ctx checks t clock i (ended started) found =
    (t ≤ started)
    × ((c : Check) × (u : ℕ) × (get_elem? checks i ≡ some c)
        × (run_one ctx c started ≡ returned found u)
        × (u ≤ clock))
HasRun ctx checks t clock i (unwound started message) found =
    (t ≤ started)
    × ((c : Check) × (get_elem? checks i ≡ some c) × (run_one ctx c started ≡ panicked message))
    × (found ≡ [])
HasRun ctx checks t clock i _ found = found ≡ []

pub record Inv (ctx : Context) (checks : List Check) (t : ℕ) (s : State) : Type 0 where
  pub later : t ≤ s.clock
  pub bounded : IsBounded (length checks) s.main
  pub counted : s.wg ≡ count is_active (length checks) s.phase
  pub born : (i : ℕ) → WasLaunched (length checks) s.main i (s.phase i)
  pub has_run : (i : ℕ) → HasRun ctx checks t s.clock i (s.phase i) (s.slot i)

pub Inv-init : (ctx : Context) (checks : List Check) (t : ℕ) → Inv ctx checks t (init t)
Inv-init ctx checks t = record {
  later = omega arith;
  bounded = omega arith;
  counted = sym (count_none is_active (length checks) unborn refl);
  born = λ i. omega arith;
  has_run = λ i. refl;
}
