-- ===== src/Checks/RedisCheck/Callbacks/Refinement.antt =====
-- The callbacks against `after_visit`.
use mathlib.Core.List.{Permᴰ}
use go_health.Prelude.Families.{get_elem?-below}
use mathlib.Core.List.Permᴰ as Perms
use go_health.Prelude.{
  map-perm, All-perm, ℕ, zero, suc, ◌+◌, ◌-◌, ◌≤◌, ◌<◌, ◌≡◌, sym, ap, true, String, List, [], ◌∷◌,
  Option, some, map, length, get_elem?, All, arith,
}
use go_health.Go.Exec.{returned}
use go_health.Go.Exec.Join.{Joined, Joined-fork_join}
use go_health.Go.Context.{Context}
use go_health.Checks.RedisCheck.{NodePinger, ping_node, with_error, after_visit}
use go_health.Checks.RedisCheck.Callbacks.Defs.{
  Pinged, Phase, waiting, pinging, answered, locked, loaded, stored, unlocked, State, Reach, begin,
  next,
}
use go_health.Checks.RedisCheck.Callbacks.Gather.{added, gather-All, IsThrough, gather-nodes}
use go_health.Checks.RedisCheck.Callbacks.Invariant.{holds, HasPinged, Inv, Inv-init}
use go_health.Checks.RedisCheck.Callbacks.Moves.{Step-Inv, alone}

-- The callback is through.
abbrev pub IsOver : Phase → Type 0
IsOver (unlocked _) = Unit
IsOver _ = ⊥

-- By how much the pings of the log were delayed.
abbrev delays : ℕ → List Pinged → ℕ → ℕ
delays u [] i = 0
delays u (p ∷ log) zero = p.started - u
delays u (p ∷ log) (suc i) = delays u log i

module _ (ctx : Context) (u : ℕ) where
  -- The ping returned by the reading `clock`.
  abbrev Returned : ℕ → Pinged → Type 0
  Returned clock p =
      (u ≤ p.started)
      × ((v : ℕ) × (ping_node ctx p.node p.started ≡ returned p.result v) × (v ≤ clock))

  log-Joined :
      (clock : ℕ) (log : List Pinged)
      → All (Returned clock) log
      → Joined
          (delays u log)
          u
          clock
          (map (ping_node ctx) (map (λ p. p.node) log))
          (map (λ p. p.result) log)
  log-Joined clock [] h = tt
  log-Joined clock (p ∷ log) ((after, (v, ran, early)), later) =
      let back : u + (p.started - u) ≡ p.started = omega arith in
      ((v, rw back ran, early), log-Joined clock log later)

  HasPinged-over :
      (nodes : List NodePinger) (clock i : ℕ) (p : Phase)
      → HasPinged ctx nodes u clock i p
      → IsOver p
      → All (Returned clock) (added p)
        × ((n : NodePinger) → get_elem? nodes i ≡ some n → IsThrough n p)
  HasPinged-over nodes clock i (unlocked p) (has, after, ended) over =
      (((after, ended), tt), λ n here. let same : p.node ≡ n = cc in same)
  HasPinged-over nodes clock i waiting h over = absurd over
  HasPinged-over nodes clock i (pinging _) h over = absurd over
  HasPinged-over nodes clock i (answered _) h over = absurd over
  HasPinged-over nodes clock i (locked _) h over = absurd over
  HasPinged-over nodes clock i (loaded _ _) h over = absurd over
  HasPinged-over nodes clock i (stored _) h over = absurd over

  module _ (nodes : List NodePinger) where
    pub Reach-Inv : {s : State} → Reach ctx nodes u s → Inv ctx nodes u s
    Reach-Inv begin = Inv-init ctx nodes u
    Reach-Inv (next r step) = Step-Inv ctx nodes u (Reach-Inv r) step

    -- In a reachable state two callbacks between mu.Lock() and mu.Unlock() are the same callback.
    pub callbacks_exclusive :
        (s : State) (i j : ℕ)
        → Reach ctx nodes u s
        → holds (s.phase i) ≡ true
        → holds (s.phase j) ≡ true
        → i ≡ j
    callbacks_exclusive s i j r hi hj = alone ctx nodes u s (Reach-Inv r) i j hi hj

    -- When the callbacks of all nodes are through, in whatever order their steps were taken, each
    -- node's result is in the slice once: `after_visit`, on the nodes in some order, each delayed by
    -- some time, returns what Run makes of the slice, at the latest at the reading of that state.
    pub callbacks_after_visit :
        (error : Option String) (s : State)
        → Reach ctx nodes u s
        → ((i : ℕ) → i < length nodes → IsOver (s.phase i))
        → (visited : List NodePinger) × (delay : ℕ → ℕ) × (w : ℕ) × Permᴰ visited nodes
          × (after_visit ctx (record { nodes = visited; delay = delay; error = error }) u
              ≡ returned (with_error error s.out) w)
          × (w ≤ s.clock)
    unfolding after_visit
    callbacks_after_visit error s r over =
        let h = Reach-Inv r in
        let through : (i : ℕ)
            → i < length nodes
            → All (Returned s.clock) (added (s.phase i))
              × ((n : NodePinger) → get_elem? nodes i ≡ some n → IsThrough n (s.phase i)) =
          λ i below. HasPinged-over nodes s.clock i (s.phase i) (h.pings i) (over i below) in
        let returns : All (Returned s.clock) h.log = All-perm (Returned s.clock) h.order (
          gather-All (Returned s.clock) (length nodes) s.phase
            (λ i below. let (ended, own) = through i below in ended)) in
        let (w, ran, early) =
          Joined-fork_join (delays u h.log) _ u s.clock _ (log-Joined s.clock h.log returns) in
        let past = h.later in
        (
          map (λ p. p.node) h.log,
          delays u h.log,
          w,
          Perms.trans (map-perm (λ p. p.node) h.order) (
              gather-nodes nodes s.phase (λ i n has.
                let (ended, own) = through i (get_elem?-below nodes i has) in own n has)),
          rw ran (ap (λ out. returned (with_error error out) w) (sym h.whole)),
          omega arith,
        )
