-- ===== src/Core/Run/Goroutines/Launching.antt =====
-- From the loop to the start of every goroutine, with the delays that are asked for.
use go_health.Prelude.{
  ℕ, zero, suc, ◌+◌, ◌≤◌, ◌<◌, ◌≡◌, refl, ◌∙◌, ap, inl, inr, false, List, length, arith,
}
use go_health.Prelude.Families.{update_elim, same_index-cases}
use go_health.Prelude.Plans.{
  planned, planned-next, planned-idle, planned-started, planned_none, planned_all,
}
use go_health.Go.Context.{Context}
use go_health.Core.Check.{Check}
use go_health.Core.Run.Goroutines.Defs.{
  Phase, ready, running, launching, is_crashed, State, tick, launch, start, Reach, begin, next,
}

module _ (ctx : Context) (checks : List Check) (t : ℕ) (delay : ℕ → ℕ) where
  launch_all :
      (k : ℕ)
      → k ≤ length checks
      → (s : State) × Reach ctx checks t s
        × (s.main ≡ launching k)
        × (s.clock ≡ t)
        × ((i : ℕ) → i < k → s.phase i ≡ ready)
  launch_all zero le = (_, begin, refl, refl, λ i below. absurd (omega arith))
  launch_all (suc k) le =
      let (s, r, at, clock, phases) = launch_all k (omega arith) in
      (
        _,
        next r (launch k at (omega arith)),
        refl,
        clock,
        update_elim (λ i p. i < suc k → p ≡ ready) s.phase k ready (λ below. refl)
            (λ i ne below. phases i (omega arith)),
      )

  abbrev phase_at : ℕ → ℕ → ℕ → Phase
  phase_at = planned (length checks) t delay ready running

  abbrev IsPlanned : ℕ → ℕ → State → Type 0
  IsPlanned k j s =
      (s.main ≡ launching (length checks))
      × (s.clock ≡ t + k)
      × ((i : ℕ) → i < length checks → s.phase i ≡ phase_at k j i)

  start_at :
      (k j : ℕ)
      → j ≤ length checks
      → ((s : State) × Reach ctx checks t s × IsPlanned k 0 s)
      → (s : State) × Reach ctx checks t s × IsPlanned k j s
  start_at k zero le before = before
  start_at k (suc j) le before =
      let (s, r, (at, clock, phases)) = start_at k j (omega arith) before in
      elim (same_index-cases (delay j) k) [
        | inl (_, due) ↦
            let up : is_crashed s.main ≡ false = ap is_crashed at in
            (
              _,
              next r (
                  start j up (
                    phases j (omega arith)
                    ∙ planned-idle (length checks) t delay ready running k j due)),
              (
                at,
                clock,
                update_elim (λ i p. i < length checks → p ≡ phase_at k (suc j) i) s.phase j
                    (running s.clock)
                    (λ below.
                      ap running clock
                      ∙ planned-started (length checks) t delay ready running k j due)
                    (λ i ne below.
                      phases i below
                      ∙ planned-next (length checks) t delay ready running k j i (inl ne)),
              ),
            )
        | inr (_, later) ↦ (
          s,
          r,
          (
            at,
            clock,
            λ i below.
                phases i below
                ∙ planned-next (length checks) t delay ready running k j i (inr later),
          ),
        )
      ]

  pub start_all : (k : ℕ) → (s : State) × Reach ctx checks t s × IsPlanned k 0 s
  start_all zero =
      let (s, r, at, clock, phases) = launch_all (length checks) (omega arith) in
      (
        s,
        r,
        (
          at,
          omega arith,
          λ i below. phases i below ∙ planned_none (length checks) t delay ready running i,
        ),
      )
  start_all (suc k) =
      let (s, r, (at, clock, phases)) = start_at k (length checks) (omega arith) (start_all k) in
      (
        _,
        next r (tick 1),
        (
          at,
          omega arith,
          λ i below. phases i below ∙ planned_all (length checks) t delay ready running k i below,
        ),
      )
