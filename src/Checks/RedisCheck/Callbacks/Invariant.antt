-- ===== src/Checks/RedisCheck/Callbacks/Invariant.antt =====
-- What holds of the callbacks in every reachable state.
use mathlib.Core.List.{Permᴰ}
use go_health.Prelude.{
  ℕ, ◌≤◌, ◌≡◌, refl, Bool, true, false, List, [], some, map, length, get_elem?, arith,
}
use mathlib.Core.List.Permᴰ as Perms
use go_health.Go.Exec.{returned}
use go_health.Go.Context.{Context}
use go_health.Core.Check.{Result}
use go_health.Checks.RedisCheck.{NodePinger, ping_node}
use go_health.Checks.RedisCheck.Callbacks.Defs.{
  Pinged, Phase, waiting, pinging, answered, locked, loaded, stored, unlocked, State, init,
}
use go_health.Checks.RedisCheck.Callbacks.Gather.{gather, gather-waiting}

-- A callback between mu.Lock() and mu.Unlock().
abbrev pub holds : Phase → Bool
holds (locked _) = true
holds (loaded _ _) = true
holds (stored _) = true
holds _ = false

-- What a callback has read of the slice is still the slice.
abbrev pub IsCurrent : List Result → Phase → Type 0
IsCurrent out (loaded _ seen) = seen ≡ out
IsCurrent out _ = Unit

module _ (ctx : Context) (nodes : List NodePinger) (u : ℕ) where
  -- The ping of the node with the index `i` returned, by the reading `clock`.
  abbrev pub Answers : ℕ → ℕ → Pinged → Type 0
  Answers clock i p =
      (get_elem? nodes i ≡ some p.node)
      × (u ≤ p.started)
      × ((v : ℕ) × (ping_node ctx p.node p.started ≡ returned p.result v) × (v ≤ clock))

  abbrev pub HasPinged : ℕ → ℕ → Phase → Type 0
  HasPinged clock i waiting = Unit
  HasPinged clock i (pinging started) = u ≤ started
  HasPinged clock i (answered p) = Answers clock i p
  HasPinged clock i (locked p) = Answers clock i p
  HasPinged clock i (loaded p _) = Answers clock i p
  HasPinged clock i (stored p) = Answers clock i p
  HasPinged clock i (unlocked p) = Answers clock i p

  pub record Inv (s : State) : Type 0 where
    pub later : u ≤ s.clock
    pub held : (i : ℕ) → holds (s.phase i) ≡ true → s.holder ≡ some i
    pub current : (i : ℕ) → IsCurrent s.out (s.phase i)
    pub pings : (i : ℕ) → HasPinged s.clock i (s.phase i)
    -- the pings in the order in which they were added
    pub log : List Pinged
    pub whole : s.out ≡ map (λ p. p.result) log
    pub order : Permᴰ log (gather (length nodes) s.phase)

  pub Inv-init : Inv (init u)
  Inv-init = record {
    later = omega arith;
    held = λ i h. cc;
    current = λ i. tt;
    pings = λ i. tt;
    log = [];
    whole = refl;
    order = rw (gather-waiting (length nodes)) (Perms.refl []);
  }
