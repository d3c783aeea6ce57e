-- ===== src/Checks/RedisCheck/Callbacks/Defs.antt =====
-- The state of the callbacks and their steps.
use go_health.Prelude.{
  ℕ, ◌+◌, ◌≤◌, ◌<◌, length, ◌≡◌, List, [], ◌∷◌, ◌++◌, Option, none, some, get_elem?,
}
use go_health.Prelude.Families.{update}
use go_health.Go.Exec.{returned}
use go_health.Go.Context.{Context}
use go_health.Core.Check.{Result}
use go_health.Checks.RedisCheck.{NodePinger, ping_node}

-- A ping that has returned: the node, the reading at which it started, and the result.
pub record Pinged : Type 0 where
  pub node : NodePinger
  pub started : ℕ
  pub result : Result

-- Where a callback stands. `append` reads the slice and then writes it.
pub data Phase : Type 0 where
  waiting : Phase
  pinging : (started : ℕ) → Phase
  answered : Pinged → Phase
  locked : Pinged → Phase
  loaded : Pinged → (seen : List Result) → Phase
  stored : Pinged → Phase
  unlocked : Pinged → Phase

pub record State : Type 0 where
  pub clock : ℕ
  -- `out`
  pub out : List Result
  -- which callback holds `mu`
  pub holder : Option ℕ
  pub phase : ℕ → Phase

-- Before the visit of the shards, at the reading `u`.
abbrev pub init : ℕ → State
init u = record { clock = u; out = []; holder = none; phase = λ i. waiting }

pub data Step (ctx : Context) (nodes : List NodePinger) (s : State) : State → Type 0 where
  -- time passes
  tick : (m : ℕ) → Step ctx nodes s (record s { clock = s.clock + m })
  -- the client runs the callback on a node: r := pingNode(ctx, p)
  call :
      (i : ℕ)
      → i < length nodes
      → s.phase i ≡ waiting
      → Step ctx nodes s (record s { phase = update s.phase i (pinging s.clock) })
  answer :
      (i : ℕ) (p : Pinged) (v : ℕ)
      → s.phase i ≡ pinging p.started
      → get_elem? nodes i ≡ some p.node
      → ping_node ctx p.node p.started ≡ returned p.result v
      → v ≤ s.clock
      → Step ctx nodes s (record s { phase = update s.phase i (answered p) })
  -- mu.Lock()
  lock :
      (i : ℕ) (p : Pinged)
      → s.phase i ≡ answered p
      → s.holder ≡ none
      → Step ctx nodes s (record s { holder = some i; phase = update s.phase i (locked p) })
  -- out = append(out, r)
  load :
      (i : ℕ) (p : Pinged)
      → s.phase i ≡ locked p
      → Step ctx nodes s (record s { phase = update s.phase i (loaded p s.out) })
  store :
      (i : ℕ) (p : Pinged) (seen : List Result)
      → s.phase i ≡ loaded p seen
      → Step ctx nodes s
          (record s { out = seen ++ p.result ∷ []; phase = update s.phase i (stored p) })
  -- mu.Unlock()
  unlock :
      (i : ℕ) (p : Pinged)
      → s.phase i ≡ stored p
      → Step ctx nodes s (record s { holder = none; phase = update s.phase i (unlocked p) })

pub data Reach (ctx : Context) (nodes : List NodePinger) (u : ℕ) : State → Type 0 where
  begin : Reach ctx nodes u (init u)
  next : {s s' : State} → Reach ctx nodes u s → Step ctx nodes s s' → Reach ctx nodes u s'
