-- ===== src/Core/Run/Goroutines/Phases.antt =====
-- What each step leaves of the phases, and the loop, of the goroutines.
use go_health.Prelude.{ℕ, suc, ◌+◌, ◌<◌, ◌≡◌, refl, ◌≢◌, String, false, List, length, arith}
use go_health.Go.Context.{Context}
use go_health.Core.Check.{Check, ComponentStatus}
use go_health.Core.Run.Goroutines.Defs.{
  Phase, unborn, ready, running, ended, unwound, Main, launching, joined, crashed, is_crashed,
}
use go_health.Core.Run.Goroutines.Invariant.{is_active, IsBounded, WasLaunched, HasRun}

module _ (ctx : Context) (checks : List Check) (t : ℕ) where
  abbrev n : ℕ
  n = length checks

  pub HasRun-later :
      (clock more i : ℕ) (p : Phase) (found : List ComponentStatus)
      → HasRun ctx checks t clock i p found
      → HasRun ctx checks t (clock + more) i p found
  HasRun-later clock more i unborn found h = h
  HasRun-later clock more i ready found h = h
  HasRun-later clock more i (running started) found (a, b, e) = (a, omega arith, e)
  HasRun-later clock more i (ended started) found (a, (c, u, e, r, b)) =
      (a, (c, u, e, r, omega arith))
  HasRun-later clock more i (unwound started message) found h = h

  -- The next goroutine to launch is unborn.
  pub next_unborn : (i : ℕ) (p : Phase) → WasLaunched n (launching i) i p → p ≡ unborn
  next_unborn i unborn h = refl
  next_unborn i ready h = absurd (omega arith)
  next_unborn i (running s) h = absurd (omega arith)
  next_unborn i (ended s) h = absurd (omega arith)
  next_unborn i (unwound s message) h = absurd (omega arith)

  pub WasLaunched-next :
      (i j : ℕ) (p : Phase)
      → i ≢ j
      → WasLaunched n (launching i) j p
      → WasLaunched n (launching (suc i)) j p
  WasLaunched-next i j unborn ne h = omega arith
  WasLaunched-next i j ready ne h = omega arith
  WasLaunched-next i j (running s) ne h = omega arith
  WasLaunched-next i j (ended s) ne h = omega arith
  WasLaunched-next i j (unwound s message) ne h = omega arith

  pub WasLaunched-running :
      (m : Main) (i s : ℕ) → WasLaunched n m i ready → WasLaunched n m i (running s)
  WasLaunched-running (launching k) i s h = h
  WasLaunched-running joined i s h = h
  WasLaunched-running (crashed x) i s h = h

  pub WasLaunched-ended :
      (m : Main) (i s : ℕ) → WasLaunched n m i (running s) → WasLaunched n m i (ended s)
  WasLaunched-ended (launching k) i s h = h
  WasLaunched-ended joined i s h = absurd h
  WasLaunched-ended (crashed x) i s h = h

  pub WasLaunched-unwound :
      (m : Main) (i s : ℕ) (message : String)
      → WasLaunched n m i (running s)
      → WasLaunched n m i (unwound s message)
  WasLaunched-unwound (launching k) i s message h = h
  WasLaunched-unwound joined i s message h = absurd h
  WasLaunched-unwound (crashed x) i s message h = h

  -- A goroutine that is ready belongs to a check.
  pub ready-below :
      (m : Main) (i : ℕ) → is_crashed m ≡ false → IsBounded n m → WasLaunched n m i ready → i < n
  ready-below (launching k) i up b h = omega arith
  ready-below joined i up b h = absurd h
  ready-below (crashed x) i up b h = cc

  pub crashed_anywhere :
      (message : String) (i : ℕ) (p : Phase) → WasLaunched n (crashed message) i p
  crashed_anywhere message i unborn = tt
  crashed_anywhere message i ready = tt
  crashed_anywhere message i (running s) = tt
  crashed_anywhere message i (ended s) = tt
  crashed_anywhere message i (unwound s message') = tt

  pub WasLaunched-joined :
      (i : ℕ) (p : Phase)
      → (i < n → is_active p ≡ false)
      → WasLaunched n (launching n) i p
      → WasLaunched n joined i p
  WasLaunched-joined i unborn idle h = h
  WasLaunched-joined i ready idle h = let none_waits = idle h in cc
  WasLaunched-joined i (running s) idle h = let none_waits = idle h in cc
  WasLaunched-joined i (ended s) idle h = h
  WasLaunched-joined i (unwound s message) idle h = h
