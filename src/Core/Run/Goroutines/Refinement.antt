-- ===== src/Core/Run/Goroutines/Refinement.antt =====
-- The interleaved goroutines against `run_checks`.
use go_health.Prelude.Families.{
  get_elem?-below, tabulate, count, count-eq-zero, count_find, same_index-cases,
}
use go_health.Prelude.{
  ℕ, suc, ◌+◌, ◌-◌, ◌≤◌, ◌<◌, ◌≡◌, refl, sym, ap, true, false, String, ◌⊎◌, inl, inr, ◌∙◌, List, [],
  ◌∷◌, some, length, get_elem?, map, arith,
}
use mathlib.Core.Path.{subst}
use go_health.Go.Exec.{returned, panicked}
use go_health.Go.Exec.Join.{Joined}
use go_health.Go.Context.{Context}
use go_health.Core.Check.{Check, ComponentStatus}
use go_health.Core.Observe.{run_one}
use go_health.Core.Run.{collect, run_checks}
use go_health.Core.Run.Slots.{initial}
use go_health.Core.Run.Wait.{run_checks_total}
use go_health.Core.Run.Goroutines.Defs.{
  Phase, unborn, ready, running, ended, unwound, joined, State, Reach, begin, next,
}
use go_health.Core.Run.Goroutines.Invariant.{is_unwound, WasLaunched, HasRun, Inv, Inv-init}
use go_health.Core.Run.Goroutines.Moves.{Step-Inv}
use go_health.Core.Run.Goroutines.Panics.{some_delays-panicked}

some-injective : {A : Type 0} {a b : A} → some a ≡ some b → a ≡ b
some-injective e = cc

is_unwound-true :
    (p : Phase)
    → is_unwound p ≡ true
    → (started : ℕ) × (message : String) × (p ≡ unwound started message)
is_unwound-true unborn h = cc
is_unwound-true ready h = cc
is_unwound-true (running s) h = cc
is_unwound-true (ended s) h = cc
is_unwound-true (unwound s message) h = (s, message, refl)

-- Either no goroutine is unwinding a panic, or one is found that does.
pub find_unwound :
    (checks : List Check) (s : State)
    → ((i : ℕ) → i < length checks → is_unwound (s.phase i) ≡ false)
      ⊎ ((i : ℕ) × (i < length checks)
          × (started : ℕ) × (message : String) × (s.phase i ≡ unwound started message))
find_unwound checks s = elim (same_index-cases (count is_unwound (length checks) s.phase) 0) [
  | inl (_, nowhere) ↦
      inl (λ i below. count-eq-zero is_unwound (length checks) s.phase i nowhere below)
  | inr (_, somewhere) ↦
      let (i, below, here) = count_find is_unwound (length checks) s.phase somewhere in
      let (started, message, at) = is_unwound-true (s.phase i) here in
      inr (i, below, started, message, at)
]

module _ (ctx : Context) (t : ℕ) where
  -- What holds in every reachable state.
  pub Reach-Inv : (checks : List Check) {s : State} → Reach ctx checks t s → Inv ctx checks t s
  Reach-Inv checks begin = Inv-init ctx checks t
  Reach-Inv checks (next r step) = Step-Inv ctx checks t (Reach-Inv checks r) step

  -- By how much the start of a goroutine was delayed.
  abbrev waited : Phase → ℕ
  waited (running started) = started - t
  waited (ended started) = started - t
  waited (unwound started _) = started - t
  waited _ = 0

  -- What an ended goroutine did.
  Ended : Check → Phase → List ComponentStatus → ℕ → Type 0
  Ended c p found clock = (v : ℕ) × (run_one ctx c (t + waited p) ≡ returned found v) × (v ≤ clock)

  HasRun-Ended :
      (checks : List Check) (clock i : ℕ) (c : Check) (p : Phase) (found : List ComponentStatus)
      → get_elem? checks i ≡ some c
      → i < length checks
      → WasLaunched (length checks) joined i p
      → is_unwound p ≡ false
      → HasRun ctx checks t clock i p found
      → Ended c p found clock
  unfolding Ended
  HasRun-Ended checks clock i c unborn found has below was fine h = absurd (omega arith)
  HasRun-Ended checks clock i c ready found has below was fine h = absurd was
  HasRun-Ended checks clock i c (running s) found has below was fine h = absurd was
  HasRun-Ended checks clock i c (ended s) found has below was fine
        (after, (d, u, has', ran, early)) =
      let same : d ≡ c = some-injective (sym has' ∙ has) in
      let back : t + (s - t) ≡ s = omega arith in (u, rw back (rw same at ran), early)
  HasRun-Ended checks clock i c (unwound s message) found has below was fine h = cc

  all-Joined :
      (checks : List Check) (clock : ℕ) (phase : ℕ → Phase) (slot : ℕ → List ComponentStatus)
      → ((i : ℕ) (c : Check) → get_elem? checks i ≡ some c → Ended c (phase i) (slot i) clock)
      → Joined
          (λ i. waited (phase i))
          t
          clock
          (map (run_one ctx) checks)
          (tabulate (length checks) slot)
  unfolding Ended
  all-Joined [] clock phase slot each = tt
  all-Joined (c ∷ checks) clock phase slot each = (
    each 0 c refl,
    all-Joined checks clock (λ i. phase (suc i)) (λ i. slot (suc i))
        (λ i d has. each (suc i) d has),
  )

  -- Past `wg.Wait()`, each goroutine has returned its slot, if none has panicked.
  pub joined-Joined :
      (checks : List Check) (s : State)
      → Reach ctx checks t s
      → s.main ≡ joined
      → ((i : ℕ) → i < length checks → is_unwound (s.phase i) ≡ false)
      → (delay : ℕ → ℕ) × Joined delay t s.clock
          (map (run_one ctx) checks)
          (tabulate (length checks) s.slot)
        × (t ≤ s.clock)
  joined-Joined checks s r at fine =
      let h = Reach-Inv checks r in
      let later = h.later in
      (
        λ i. waited (s.phase i),
        all-Joined checks s.clock s.phase s.slot (λ i c has.
            let below = get_elem?-below checks i has in
            HasRun-Ended checks s.clock i c (s.phase i) (s.slot i) has below
              (subst (λ m. WasLaunched (length checks) m i (s.phase i)) at (h.born i))
              (fine i below) (h.has_run i)),
        omega arith,
      )

  -- A goroutine that unwinds runs a check of the run that panicked, from a reading no earlier than
  -- the run.
  pub unwound-panicked :
      (checks : List Check) (s : State)
      → Reach ctx checks t s
      → (i started : ℕ) (message : String) → s.phase i ≡ unwound started message
      → (j : ℕ) × (c : Check) × (began : ℕ) × (get_elem? checks j ≡ some c)
        × (t ≤ began)
        × (run_one ctx c began ≡ panicked message)
  unwound-panicked checks s r i started message at =
      let h = Reach-Inv checks r in
      let (after, (c, has, ran), _) =
        subst (λ p. HasRun ctx checks t s.clock i p (s.slot i)) at (h.has_run i) in
      (i, c, started, has, after, ran)

  -- Past `wg.Wait()`, whatever the order of the steps. Where no goroutine is unwinding a panic, the slots
  -- are those of a run of `run_checks`: there are delays of the goroutines with which `run_checks`
  -- returns what is collected from the slots, by the reading of the clock. Otherwise some goroutine is,
  -- its slot is nil, and there are delays with which `run_checks` panics.
  pub joined-run_checks :
      (checks : List Check) (s : State)
      → Reach ctx checks t s
      → s.main ≡ joined
      → (((i : ℕ) → i < length checks → is_unwound (s.phase i) ≡ false)
          × ((delay : ℕ → ℕ) × (w : ℕ) × (run_checks delay ctx checks t
                ≡ returned (collect checks (tabulate (length checks) s.slot) (initial t)) w)
              × (w ≤ s.clock)))
        ⊎ ((i : ℕ) × (i < length checks)
            × (is_unwound (s.phase i) ≡ true)
            × (s.slot i ≡ [])
            × ((delay : ℕ → ℕ) × (first : String) × (run_checks delay ctx checks t
                  ≡ panicked first)))
  joined-run_checks checks s r at = elim (find_unwound checks s) [
    | inl fine ↦
        let (delay, j, later) = joined-Joined checks s r at fine in
        let (w, ran, early) = run_checks_total delay ctx checks t s.clock _ j in
        inl (fine, (delay, w, ran, omega arith))
    | inr (i, below, started, message, here) ↦
        let h = Reach-Inv checks r in
        let (after, (c, has, ran), nil) =
          subst (λ p. HasRun ctx checks t s.clock i p (s.slot i)) here (h.has_run i) in
        inr (
          i,
          below,
          ap is_unwound here,
          nil,
          some_delays-panicked ctx checks t i c started message has after ran,
        )
  ]
