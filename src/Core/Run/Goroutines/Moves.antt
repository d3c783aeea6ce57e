-- ===== src/Core/Run/Goroutines/Moves.antt =====
-- Each step keeps what holds of the goroutines.
use mathlib.Core.Path.{subst}
use go_health.Prelude.{
  ℕ, suc, ◌+◌, ◌-◌, ◌≤◌, ◌<◌, ◌≡◌, sym, ◌∙◌, ap, String, true, false, List, some, length, get_elem?,
  arith,
}
use go_health.Prelude.Families.{
  get_elem?-below, update, count-update, count-eq-zero, update_elim, update_both,
}
use go_health.Go.Exec.{returned, panicked}
use go_health.Go.Context.{Context}
use go_health.Core.Check.{Check, ComponentStatus}
use go_health.Core.Observe.{run_one}
use go_health.Core.Run.Goroutines.Defs.{
  unborn, ready, running, ended, unwound, launching, joined, crashed, State, is_crashed, Step, tick,
  launch, start, finish, unwind, crash, wait,
}
use go_health.Core.Run.Goroutines.Invariant.{is_active, WasLaunched, HasRun, Inv}
use go_health.Core.Run.Goroutines.Phases.{
  HasRun-later, next_unborn, WasLaunched-next, WasLaunched-running, WasLaunched-ended,
  WasLaunched-unwound, ready-below, crashed_anywhere, WasLaunched-joined,
}

module _ (ctx : Context) (checks : List Check) (t : ℕ) where
  abbrev n : ℕ
  n = length checks

  module _ (s : State) (h : Inv ctx checks t s) where
    tick-Inv : (more : ℕ) → Inv ctx checks t (record s { clock = s.clock + more })
    tick-Inv more = record {
      later = let past = h.later in omega arith;
      bounded = h.bounded;
      counted = h.counted;
      born = h.born;
      has_run = λ i. HasRun-later ctx checks t s.clock more i (s.phase i) (s.slot i) (h.has_run i);
    }

    launch-Inv :
        (i : ℕ)
        → s.main ≡ launching i
        → i < n
        → Inv ctx checks t
            (record s { main = launching (suc i); wg = s.wg + 1; phase = update s.phase i ready })
    launch-Inv i at below =
        let born_at : (j : ℕ) → WasLaunched n (launching i) j (s.phase j) =
          λ j. subst (λ m. WasLaunched n m j (s.phase j)) at (h.born j) in
        let fresh : s.phase i ≡ unborn = next_unborn ctx checks t i (s.phase i) (born_at i) in
        record {
          later = h.later;
          bounded = omega arith;
          counted =
              let one_more = count-update is_active n s.phase i ready below in
              let was : is_active (s.phase i) ≡ false = ap is_active fresh in
              let before = h.counted in let change = rw was at one_more in omega arith;
          born =
              update_elim (WasLaunched n (launching (suc i))) s.phase i ready (omega arith)
                (λ j ne. WasLaunched-next ctx checks t i j (s.phase j) ne (born_at j));
          has_run =
              update_elim (λ j p. HasRun ctx checks t s.clock j p (s.slot j)) s.phase i ready
                (subst (λ p. HasRun ctx checks t s.clock i p (s.slot i)) fresh (h.has_run i))
                (λ j ne. h.has_run j);
        }

    start-Inv :
        (i : ℕ)
        → is_crashed s.main ≡ false
        → s.phase i ≡ ready
        → Inv ctx checks t (record s { phase = update s.phase i (running s.clock) })
    start-Inv i up at =
        let born_here = subst (WasLaunched n s.main i) at (h.born i) in
        let below = ready-below ctx checks t s.main i up h.bounded born_here in
        record {
          later = h.later;
          bounded = h.bounded;
          counted =
              let same = count-update is_active n s.phase i (running s.clock) below in
              let was : is_active (s.phase i) ≡ true = ap is_active at in
              let before = h.counted in let change = rw was at same in omega arith;
          born =
              update_elim (WasLaunched n s.main) s.phase i (running s.clock)
                (WasLaunched-running ctx checks t s.main i s.clock born_here) (λ j ne. h.born j);
          has_run =
              update_elim (λ j p. HasRun ctx checks t s.clock j p (s.slot j)) s.phase i
                (running s.clock)
                (
                  h.later,
                  omega arith,
                  subst (λ p. HasRun ctx checks t s.clock i p (s.slot i)) at (h.has_run i),
                )
                (λ j ne. h.has_run j);
        }

    finish-Inv :
        (i : ℕ) (c : Check) (began u : ℕ) (found : List ComponentStatus)
        → is_crashed s.main ≡ false
        → s.phase i ≡ running began
        → get_elem? checks i ≡ some c
        → run_one ctx c began ≡ returned found u
        → u ≤ s.clock
        → Inv ctx checks t (record s {
          wg = s.wg - 1;
          phase = update s.phase i (ended began);
          slot = update s.slot i found;
        })
    finish-Inv i c began u found up at has ran early =
        let born_here = subst (WasLaunched n s.main i) at (h.born i) in
        let (after, _, _) =
          subst (λ p. HasRun ctx checks t s.clock i p (s.slot i)) at (h.has_run i) in
        record {
          later = h.later;
          bounded = h.bounded;
          counted =
              let one_less =
                count-update is_active n s.phase i (ended began) (get_elem?-below checks i has) in
              let was : is_active (s.phase i) ≡ true = ap is_active at in
              let before = h.counted in let change = rw was at one_less in omega arith;
          born =
              update_elim (WasLaunched n s.main) s.phase i (ended began)
                (WasLaunched-ended ctx checks t s.main i began born_here) (λ j ne. h.born j);
          has_run =
              update_both (λ j p slot. HasRun ctx checks t s.clock j p slot) s.phase s.slot i
                (ended began) found (after, (c, u, has, ran, early)) (λ j ne. h.has_run j);
        }

    unwind-Inv :
        (i : ℕ) (c : Check) (began : ℕ) (message : String)
        → s.phase i ≡ running began
        → get_elem? checks i ≡ some c
        → run_one ctx c began ≡ panicked message
        → Inv ctx checks t
            (record s { wg = s.wg - 1; phase = update s.phase i (unwound began message) })
    unwind-Inv i c began message at has ran =
        let gone = unwound began message in
        let born_here = subst (WasLaunched n s.main i) at (h.born i) in
        let (after, _, nil) =
          subst (λ p. HasRun ctx checks t s.clock i p (s.slot i)) at (h.has_run i) in
        record {
          later = h.later;
          bounded = h.bounded;
          counted =
              let one_less =
                count-update is_active n s.phase i gone (get_elem?-below checks i has) in
              let was : is_active (s.phase i) ≡ true = ap is_active at in
              let before = h.counted in let change = rw was at one_less in omega arith;
          born =
              update_elim (WasLaunched n s.main) s.phase i gone
                (WasLaunched-unwound ctx checks t s.main i began message born_here)
                (λ j ne. h.born j);
          has_run =
              update_elim (λ j p. HasRun ctx checks t s.clock j p (s.slot j)) s.phase i gone
                (after, (c, has, ran), nil) (λ j ne. h.has_run j);
        }

    crash-Inv : (message : String) → Inv ctx checks t (record s { main = crashed message })
    crash-Inv message = record {
      later = h.later;
      bounded = tt;
      counted = h.counted;
      born = λ j. crashed_anywhere ctx checks t message j (s.phase j);
      has_run = h.has_run;
    }

    wait-Inv : s.main ≡ launching n → s.wg ≡ 0 → Inv ctx checks t (record s { main = joined })
    wait-Inv at none_left = record {
      later = h.later;
      bounded = tt;
      counted = h.counted;
      born = λ j.
          WasLaunched-joined ctx checks t j (s.phase j)
            (λ below. count-eq-zero is_active n s.phase j (sym h.counted ∙ none_left) below)
            (subst (λ m. WasLaunched n m j (s.phase j)) at (h.born j));
      has_run = h.has_run;
    }

  pub Step-Inv : {s s' : State} → Inv ctx checks t s → Step ctx checks s s' → Inv ctx checks t s'
  Step-Inv h (tick more) = tick-Inv _ h more
  Step-Inv h (launch i at below) = launch-Inv _ h i at below
  Step-Inv h (start i up at) = start-Inv _ h i up at
  Step-Inv h (finish i c began u found up at has ran early) =
      finish-Inv _ h i c began u found up at has ran early
  Step-Inv h (unwind i c began message up at has ran) = unwind-Inv _ h i c began message at has ran
  Step-Inv h (crash i began message up at) = crash-Inv _ h message
  Step-Inv h (wait at none_left) = wait-Inv _ h at none_left
