-- ===== src/Checks/RedisCheck/Callbacks/Held.antt =====
-- The callback that holds the mutex.
use go_health.Prelude.{ℕ, ◌≡◌, refl, ap, true, List, some}
use go_health.Prelude.Families.{update, update_elim}
use go_health.Go.Context.{Context}
use go_health.Checks.RedisCheck.{NodePinger}
use go_health.Checks.RedisCheck.Callbacks.Defs.{
  Phase, pinging, answered, locked, loaded, stored, State, Step, tick, call, answer, lock, load,
  store, unlock, Reach, begin, next,
}
use go_health.Checks.RedisCheck.Callbacks.Invariant.{holds}

-- The mutex is held by a callback that is to release it.
abbrev pub Held : State → Type 0
Held s = (i : ℕ) → s.holder ≡ some i → holds (s.phase i) ≡ true

Held-move :
    (s : State) (i : ℕ) (p : Phase)
    → Held s
    → (holds (s.phase i) ≡ true → holds p ≡ true)
    → (j : ℕ) → s.holder ≡ some j
    → holds (update s.phase i p j) ≡ true
Held-move s i p h keeps =
    update_elim (λ j q. s.holder ≡ some j → holds q ≡ true) s.phase i p (λ e. keeps (h i e))
      (λ j ne. h j)

Step-Held :
    (ctx : Context) (nodes : List NodePinger) {s s' : State}
    → Held s
    → Step ctx nodes s s'
    → Held s'
Step-Held ctx nodes h (tick m) = h
Step-Held ctx nodes {s} h (call i below at) =
    Held-move s i (pinging s.clock) h (λ e. cc (ap holds at))
Step-Held ctx nodes {s} h (answer i p v at has ran early) =
    Held-move s i (answered p) h (λ e. cc (ap holds at))
Step-Held ctx nodes {s} h (lock i p at free) =
    update_elim (λ j q. some i ≡ some j → holds q ≡ true) s.phase i (locked p) (λ e. refl)
      (λ j ne e. let same : i ≡ j = cc in absurd (ne same))
Step-Held ctx nodes {s} h (load i p at) = Held-move s i (loaded p s.out) h (λ e. refl)
Step-Held ctx nodes {s} h (store i p seen at) = Held-move s i (stored p) h (λ e. refl)
Step-Held ctx nodes h (unlock i p at) = λ j e. cc

module _ (ctx : Context) (nodes : List NodePinger) (u : ℕ) where
  pub Reach-Held : {s : State} → Reach ctx nodes u s → Held s
  Reach-Held begin = λ i e. cc
  Reach-Held (next r step) = Step-Held ctx nodes (Reach-Held r) step
