-- ===== src/Checks/RedisCheck/Callbacks/Launching.antt =====
-- The callbacks on all nodes are called, with the delays that are asked for.
use go_health.Prelude.{
  ℕ, zero, suc, ◌+◌, ◌≤◌, ◌<◌, ◌≡◌, refl, ◌∙◌, ap, inl, inr, List, [], none, length, arith,
}
use go_health.Prelude.Families.{update_elim, same_index-cases}
use go_health.Prelude.Plans.{
  planned, planned-next, planned-idle, planned-started, planned_none, planned_all,
}
use go_health.Go.Context.{Context}
use go_health.Checks.RedisCheck.{NodePinger}
use go_health.Checks.RedisCheck.Callbacks.Defs.{
  Phase, waiting, pinging, State, tick, call, Reach, begin, next,
}

module _ (ctx : Context) (nodes : List NodePinger) (u : ℕ) (delay : ℕ → ℕ) where
  abbrev phase_at : ℕ → ℕ → ℕ → Phase
  phase_at = planned (length nodes) u delay waiting pinging

  -- Nothing is added yet, and nobody holds the mutex.
  abbrev pub IsCalled : ℕ → ℕ → State → Type 0
  IsCalled k j s =
      (s.clock ≡ u + k)
      × (s.out ≡ [])
      × (s.holder ≡ none)
      × ((i : ℕ) → i < length nodes → s.phase i ≡ phase_at k j i)

  call_at :
      (k j : ℕ)
      → j ≤ length nodes
      → ((s : State) × Reach ctx nodes u s × IsCalled k 0 s)
      → (s : State) × Reach ctx nodes u s × IsCalled k j s
  call_at k zero le before = before
  call_at k (suc j) le before =
      let (s, r, (clock, empty, free, phases)) = call_at k j (omega arith) before in
      elim (same_index-cases (delay j) k) [
        | inl (_, due) ↦ (
          _,
          next r (
              call j (omega arith) (
                phases j (omega arith)
                ∙ planned-idle (length nodes) u delay waiting pinging k j due)),
          (
            clock,
            empty,
            free,
            update_elim (λ i p. i < length nodes → p ≡ phase_at k (suc j) i) s.phase j
                (pinging s.clock)
                (λ below.
                  ap pinging clock ∙ planned-started (length nodes) u delay waiting pinging k j due)
                (λ i ne below.
                  phases i below
                  ∙ planned-next (length nodes) u delay waiting pinging k j i (inl ne)),
          ),
        )
        | inr (_, later) ↦ (
          s,
          r,
          (
            clock,
            empty,
            free,
            λ i below.
                phases i below
                ∙ planned-next (length nodes) u delay waiting pinging k j i (inr later),
          ),
        )
      ]

  pub call_all : (k : ℕ) → (s : State) × Reach ctx nodes u s × IsCalled k 0 s
  call_all zero = (
    _,
    begin,
    (omega arith, refl, refl, λ i below. planned_none (length nodes) u delay waiting pinging i),
  )
  call_all (suc k) =
      let (s, r, (clock, empty, free, phases)) =
        call_at k (length nodes) (omega arith) (call_all k) in
      (
        _,
        next r (tick 1),
        (
          omega arith,
          empty,
          free,
          λ i below. phases i below ∙ planned_all (length nodes) u delay waiting pinging k i below,
        ),
      )
