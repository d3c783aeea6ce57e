-- ===== src/Checks/RedisCheck/Callbacks/Progress.antt =====
-- The callbacks on their way to the end.
use go_health.Prelude.{
  ℕ, zero, suc, ◌+◌, ◌≤◌, ◌<◌, ◌≡◌, refl, ap, ◌≢◌, inl, inr, true, List, Option-cases, none, some,
  length, get_elem?, arith,
}
use go_health.Prelude.Families.{
  get_elem?-some, update, total, total-update, total-eq-zero, total_find, same_index-cases,
  get_elem?-below,
}
use go_health.Go.Exec.{returned}
use go_health.Go.Context.{Context}
use go_health.Core.Check.{Result}
use go_health.Checks.RedisCheck.{NodePinger, ping_node}
use go_health.Checks.RedisCheck.Callbacks.Defs.{
  Pinged, Phase, waiting, pinging, answered, locked, loaded, stored, unlocked, State, Step, tick,
  call, answer, lock, load, store, unlock, Reach, next,
}
use go_health.Checks.RedisCheck.Callbacks.Invariant.{holds, HasPinged}
use go_health.Checks.RedisCheck.Callbacks.Held.{Reach-Held}
use go_health.Checks.RedisCheck.Callbacks.Refinement.{IsOver, Reach-Inv}

-- How many steps a callback has before it.
abbrev left : Phase → ℕ
left waiting = 6
left (pinging _) = 5
left (answered _) = 4
left (locked _) = 3
left (loaded _ _) = 2
left (stored _) = 1
left (unlocked _) = 0

left-IsOver : (p : Phase) → left p ≡ 0 → IsOver p
left-IsOver (unlocked _) h = tt
left-IsOver waiting h = absurd (omega arith)
left-IsOver (pinging _) h = absurd (omega arith)
left-IsOver (answered _) h = absurd (omega arith)
left-IsOver (locked _) h = absurd (omega arith)
left-IsOver (loaded _ _) h = absurd (omega arith)
left-IsOver (stored _) h = absurd (omega arith)

-- Steps that lead from a state to another.
pub data Leads (ctx : Context) (nodes : List NodePinger) : State → State → Type 0 where
  already : {s : State} → Leads ctx nodes s s
  by : {s s' s'' : State} → Step ctx nodes s s' → Leads ctx nodes s' s'' → Leads ctx nodes s s''

module _ (ctx : Context) (nodes : List NodePinger) (u : ℕ) where
  -- A state that is some steps on, with fewer left.
  Onward : {s : State} → Reach ctx nodes u s → Type 0
  Onward {s} r =
      (s' : State) × ((s'' : State) → Leads ctx nodes s' s'' → Leads ctx nodes s s'')
      × Reach ctx nodes u s'
      × (total left (length nodes) s'.phase < total left (length nodes) s.phase)

  -- An update by a phase with fewer steps before it leaves fewer.
  fewer :
      (phase : ℕ → Phase) (i : ℕ) (old new : Phase)
      → phase i ≡ old
      → left new < left old
      → i < length nodes
      → total left (length nodes) (update phase i new) < total left (length nodes) phase
  fewer phase i old new at down below =
      let change = rw at at (total-update left (length nodes) phase i new below) in omega arith

  module _
      (each : (i : ℕ) (n : NodePinger)
        → get_elem? nodes i ≡ some n
        → (started : ℕ) → (r : Result) × (v : ℕ) × (ping_node ctx n started ≡ returned r v)) where
    -- The callback that holds the mutex goes on.
    holder-Onward :
        {s : State} (r : Reach ctx nodes u s) (i : ℕ) (p : Phase)
        → s.phase i ≡ p
        → holds p ≡ true
        → i < length nodes
        → Onward r
    unfolding Onward
    holder-Onward {s} r i (locked p) at h below = (
      _,
      λ s'' on. by (load i p at) on,
      next r (load i p at),
      fewer s.phase i (locked p) (loaded p s.out) at (omega arith) below,
    )
    holder-Onward {s} r i (loaded p seen) at h below = (
      _,
      λ s'' on. by (store i p seen at) on,
      next r (store i p seen at),
      fewer s.phase i (loaded p seen) (stored p) at (omega arith) below,
    )
    holder-Onward {s} r i (stored p) at h below = (
      _,
      λ s'' on. by (unlock i p at) on,
      next r (unlock i p at),
      fewer s.phase i (stored p) (unlocked p) at (omega arith) below,
    )
    holder-Onward r i waiting at h below = cc
    holder-Onward r i (pinging _) at h below = cc
    holder-Onward r i (answered _) at h below = cc
    holder-Onward r i (unlocked _) at h below = cc

    -- While nobody holds the mutex, any callback that is not through can go on.
    free-Onward :
        {s : State} (r : Reach ctx nodes u s) (i : ℕ) (p : Phase)
        → s.holder ≡ none
        → s.phase i ≡ p
        → left p ≢ 0
        → i < length nodes
        → Onward r
    unfolding Onward
    free-Onward {s} r i waiting free at some_left below = (
      _,
      λ s'' on. by (call i below at) on,
      next r (call i below at),
      fewer s.phase i waiting (pinging s.clock) at (omega arith) below,
    )
    free-Onward {s} r i (pinging began) free at some_left below =
        let (n, has) = get_elem?-some nodes i below in
        let (result, v, ran) = each i n has began in
        let p : Pinged = record { node = n; started = began; result = result } in
        let late : v ≤ s.clock + v = omega arith in
        let end = answer i p v at has ran late in
        (
          _,
          λ s'' on. by (tick v) (by end on),
          next (next r (tick v)) end,
          fewer s.phase i (pinging began) (answered p) at (omega arith) below,
        )
    free-Onward {s} r i (answered p) free at some_left below = (
      _,
      λ s'' on. by (lock i p at free) on,
      next r (lock i p at free),
      fewer s.phase i (answered p) (locked p) at (omega arith) below,
    )
    free-Onward {s} r i (unlocked p) free at some_left below = absurd (some_left refl)
    free-Onward {s} r i (locked p) free at some_left below =
        let h = Reach-Inv ctx u nodes r in cc (h.held i (ap holds at))
    free-Onward {s} r i (loaded p seen) free at some_left below =
        let h = Reach-Inv ctx u nodes r in cc (h.held i (ap holds at))
    free-Onward {s} r i (stored p) free at some_left below =
        let h = Reach-Inv ctx u nodes r in cc (h.held i (ap holds at))

    holds-below :
        (clock i : ℕ) (p : Phase)
        → HasPinged ctx nodes u clock i p
        → holds p ≡ true
        → i < length nodes
    holds-below clock i (locked p) (has, _, _) h = get_elem?-below nodes i has
    holds-below clock i (loaded p _) (has, _, _) h = get_elem?-below nodes i has
    holds-below clock i (stored p) (has, _, _) h = get_elem?-below nodes i has
    holds-below clock i waiting pings h = cc
    holds-below clock i (pinging _) pings h = cc
    holds-below clock i (answered _) pings h = cc
    holds-below clock i (unlocked _) pings h = cc

    some-Onward :
        {s : State} (r : Reach ctx nodes u s) → total left (length nodes) s.phase ≢ 0 → Onward r
    some-Onward {s} r some_left = elim (Option-cases s.holder) [
      | inl free ↦
          let (i, below, unfinished) = total_find left (length nodes) s.phase some_left in
          free-Onward r i (s.phase i) free refl unfinished below
      | inr (i, taken) ↦
          let inside = Reach-Held ctx nodes u r i taken in
          let h = Reach-Inv ctx u nodes r in
          holder-Onward r i (s.phase i) refl inside
            (holds-below s.clock i (s.phase i) (h.pings i) inside)
    ]

    onwards :
        (fuel : ℕ) {s : State}
        → Reach ctx nodes u s
        → total left (length nodes) s.phase ≤ fuel
        → (s' : State) × Leads ctx nodes s s'
          × Reach ctx nodes u s'
          × ((i : ℕ) → i < length nodes → IsOver (s'.phase i))
    unfolding Onward
    onwards zero {s} r enough = (
      s,
      already,
      r,
      λ i below.
          left-IsOver (s.phase i) (total-eq-zero left (length nodes) s.phase i (omega arith) below),
    )
    onwards (suc fuel) {s} r enough =
        elim (same_index-cases (total left (length nodes) s.phase) 0) [
          | inl (_, none_left) ↦ (
            s,
            already,
            r,
            λ i below.
                left-IsOver (s.phase i)
                  (total-eq-zero left (length nodes) s.phase i none_left below),
          )
          | inr (_, some_left) ↦
              let (s', on, r', down) = some-Onward r some_left in
              let (s'', rest, r'', over) = onwards fuel r' (omega arith) in
              (s'', on s'' rest, r'', over)
        ]

    -- Where each ping returns whenever it is started, the callbacks never wait for the mutex for ever:
    -- from every reachable state, some steps lead on to a reachable state in which they are all
    -- through.
    pub callbacks_finish :
        {s : State}
        → Reach ctx nodes u s
        → (s' : State) × Leads ctx nodes s s'
          × Reach ctx nodes u s'
          × ((i : ℕ) → i < length nodes → IsOver (s'.phase i))
    callbacks_finish {s} r = onwards (total left (length nodes) s.phase) r (omega arith)
