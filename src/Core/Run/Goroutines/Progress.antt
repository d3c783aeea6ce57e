-- ===== src/Core/Run/Goroutines/Progress.antt =====
-- The goroutines on their way to the end: the steps that are left, and the next one.
use mathlib.Core.Path.{subst}
use native.Mathlib.Decide.{dec_lt}
use go_health.Prelude.Families.{
  get_elem?-below, get_elem?-some, update, count_find, total, total-update, total_same,
}
use go_health.Prelude.{
  ℕ, zero, suc, ◌+◌, ◌*◌, ◌≤◌, ◌<◌, ◌≡◌, refl, ◌∙◌, ap, ◌⊎◌, inl, inr, true, false, List, some,
  length, get_elem?, arith,
}
use go_health.Go.Exec.{returned}
use go_health.Go.Context.{Context}
use go_health.Core.Check.{Check, ComponentStatus}
use go_health.Core.Observe.{run_one}
use go_health.Core.Run.Goroutines.Defs.{
  Phase, unborn, ready, running, ended, unwound, Main, launching, joined, crashed, State,
  is_crashed, Step, tick, launch, start, finish, unwind, crash, wait, Reach, begin, next,
}
use go_health.Core.Run.Goroutines.Invariant.{is_active, IsBounded, WasLaunched}
use go_health.Core.Run.Goroutines.Phases.{next_unborn, ready-below}
use go_health.Core.Run.Goroutines.Refinement.{Reach-Inv}

-- How many steps a goroutine has before it.
abbrev pub left : Phase → ℕ
left unborn = 3
left ready = 2
left (running _) = 1
left (ended _) = 0
left (unwound _ _) = 0

abbrev pub left_main : Main → ℕ
left_main (launching _) = 1
left_main _ = 0

abbrev pub remaining : ℕ → State → ℕ
remaining n s = total left n s.phase + left_main s.main

module _ (ctx : Context) (checks : List Check) (t : ℕ) where
  -- How many steps were taken, the passing of time aside.
  abbrev pub moves : {s : State} → Reach ctx checks t s → ℕ
  moves begin = 0
  moves (next r (tick _)) = moves r
  moves (next r (launch _ _ _)) = suc (moves r)
  moves (next r (start _ _ _)) = suc (moves r)
  moves (next r (finish _ _ _ _ _ _ _ _ _ _)) = suc (moves r)
  moves (next r (unwind _ _ _ _ _ _ _ _)) = suc (moves r)
  moves (next r (crash _ _ _ _ _)) = suc (moves r)
  moves (next r (wait _ _)) = suc (moves r)

  -- An update by a phase with one step less before it is one step.
  one_step :
      (phase : ℕ → Phase) (i : ℕ) (old new : Phase)
      → phase i ≡ old
      → left old ≡ suc (left new)
      → i < length checks
      → suc (total left (length checks) (update phase i new)) ≡ total left (length checks) phase
  one_step phase i old new at down below =
      let change = rw at at (total-update left (length checks) phase i new below) in omega arith

  -- In every reachable state in which the process has not crashed, the steps that were taken, the
  -- passing of time aside, and those that remain are together three for each check, a launch, a start
  -- and an end or a panic, and the one of `wg.Wait()`.
  pub moves-remaining :
      {s : State} (r : Reach ctx checks t s)
      → is_crashed s.main ≡ false
      → moves r + remaining (length checks) s ≡ 3 * length checks + 1
  moves-remaining begin up = let all = total_same left (length checks) unborn in omega arith
  moves-remaining (next r (tick n)) up = moves-remaining r up
  moves-remaining (next {s} r (launch i at below)) up =
      let h = Reach-Inv ctx t checks r in
      let alive : is_crashed s.main ≡ false = ap is_crashed at in
      let before = moves-remaining r alive in
      let one_main : left_main s.main ≡ 1 = ap left_main at in
      let fresh : s.phase i ≡ unborn =
        next_unborn ctx checks t i (s.phase i)
          (subst (λ m. WasLaunched (length checks) m i (s.phase i)) at (h.born i)) in
      let one = one_step s.phase i unborn ready fresh refl below in omega arith
  moves-remaining (next {s} r (start i up at)) alive =
      let h = Reach-Inv ctx t checks r in
      let before = moves-remaining r up in
      let below =
        ready-below ctx checks t s.main i up h.bounded
          (subst (WasLaunched (length checks) s.main i) at (h.born i)) in
      let one = one_step s.phase i ready (running s.clock) at refl below in omega arith
  moves-remaining (next {s} r (finish i c began u found up at has ran early)) alive =
      let before = moves-remaining r up in
      let one =
        one_step s.phase i (running began) (ended began) at refl (get_elem?-below checks i has) in
      omega arith
  moves-remaining (next {s} r (unwind i c began message up at has ran)) alive =
      let before = moves-remaining r up in
      let one =
        one_step s.phase i (running began) (unwound began message) at refl
          (get_elem?-below checks i has) in
      omega arith
  moves-remaining (next r (crash i began message up at)) alive = cc
  moves-remaining (next {s} r (wait at none_left)) up =
      let alive : is_crashed s.main ≡ false = ap is_crashed at in
      let before = moves-remaining r alive in
      let one_main : left_main s.main ≡ 1 = ap left_main at in omega arith

Main-cases : (m : Main) → is_crashed m ≡ false → ((i : ℕ) × (m ≡ launching i)) ⊎ (m ≡ joined)
Main-cases (launching i) up = inl (i, refl)
Main-cases joined up = inr refl
Main-cases (crashed message) up = cc

is_active-cases :
    (p : Phase) → is_active p ≡ true → (p ≡ ready) ⊎ ((began : ℕ) × (p ≡ running began))
is_active-cases unborn h = cc
is_active-cases ready h = inl refl
is_active-cases (running began) h = inr (began, refl)
is_active-cases (ended began) h = cc
is_active-cases (unwound began message) h = cc

-- Steps that lead from a state to another.
pub data Leads (ctx : Context) (checks : List Check) : State → State → Type 0 where
  already : {s : State} → Leads ctx checks s s
  by : {s s' s'' : State} → Step ctx checks s s' → Leads ctx checks s' s'' → Leads ctx checks s s''

module _ (ctx : Context) (checks : List Check) (t : ℕ)
    (each : (i : ℕ) (c : Check)
      → get_elem? checks i ≡ some c
      → (began : ℕ)
      → (found : List ComponentStatus) × (v : ℕ) × (run_one ctx c began ≡ returned found v)) where
  -- A state that is one step on.
  Onward : {s : State} → Reach ctx checks t s → Type 0
  Onward {s} r =
      (s' : State) × ((s'' : State) → Leads ctx checks s' s'' → Leads ctx checks s s'')
      × (r' : Reach ctx checks t s') × (is_crashed s'.main ≡ false)
      × (moves ctx checks t r' ≡ suc (moves ctx checks t r))

  active-Onward :
      {s : State} (r : Reach ctx checks t s) (i : ℕ)
      → is_crashed s.main ≡ false
      → i < length checks
      → is_active (s.phase i) ≡ true
      → Onward r
  unfolding Onward
  active-Onward {s} r i up below active = elim (is_active-cases (s.phase i) active) [
    | inl at ↦ (_, λ s'' on. by (start i up at) on, next r (start i up at), up, refl)
    | inr (began, at) ↦
        let (c, has) = get_elem?-some checks i below in
        let (found, v, ran) = each i c has began in
        let late : v ≤ s.clock + v = omega arith in
        let end = finish i c began v found up at has ran late in
        (_, λ s'' on. by (tick v) (by end on), next (next r (tick v)) end, up, refl)
  ]

  progress :
      {s : State} (r : Reach ctx checks t s)
      → is_crashed s.main ≡ false
      → (s.main ≡ joined) ⊎ Onward r
  unfolding Onward
  progress {s} r up = elim (Main-cases s.main up) [
    | inr at ↦ inl at
    | inl (i, at) ↦ inr (elim (dec_lt i (length checks)) [
      | yes below ↦ (_, λ s'' on. by (launch i at below) on, next r (launch i at below), refl, refl)
      | no above ↦
          let h = Reach-Inv ctx t checks r in
          let bound : i ≤ length checks = subst (IsBounded (length checks)) at h.bounded in
          let last : i ≡ length checks = omega arith in
          elim (dec_lt 0 s.wg) [
            | no none_left ↦
                let end = wait (at ∙ ap launching last) (omega arith) in
                (_, λ s'' on. by end on, next r end, refl, refl)
            | yes some_left ↦
                let counted = h.counted in
                let (j, below, active) =
                  count_find is_active (length checks) s.phase (λ e. absurd (omega arith)) in
                active-Onward r j up below active
          ]
    ])
  ]

  onwards :
      (fuel : ℕ) {s : State} (r : Reach ctx checks t s)
      → is_crashed s.main ≡ false
      → 3 * length checks + 1 ≤ moves ctx checks t r + fuel
      → (s' : State) × Leads ctx checks s s' × (s'.main ≡ joined)
  unfolding Onward
  onwards zero {s} r up enough = elim (progress r up) [
    | inl at ↦ (s, already, at)
    | inr (s', on, r', up', one) ↦
        let all = moves-remaining ctx checks t r' up' in absurd (omega arith)
  ]
  onwards (suc fuel) {s} r up enough = elim (progress r up) [
    | inl at ↦ (s, already, at)
    | inr (s', on, r', up', one) ↦
        let (s'', rest, at) = onwards fuel r' up' (omega arith) in (s'', on s'' rest, at)
  ]

  -- Where each check returns whenever it is run, the goroutines never wait for each other for ever:
  -- from every reachable state, some steps lead on to a state past `wg.Wait()`.
  pub reaches-joined :
      {s : State}
      → (r : Reach ctx checks t s) → is_crashed s.main ≡ false
      → (s' : State) × Leads ctx checks s s' × (s'.main ≡ joined)
  reaches-joined r up = onwards (3 * length checks + 1) r up (omega arith)
