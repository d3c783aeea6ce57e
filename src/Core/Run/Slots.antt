-- ===== src/Core/Run/Slots.antt =====
-- The run of a probe, taken apart: the heartbeat, the slots of the goroutines, and the map.
use go_health.Prelude.{ℕ, ◌≡◌, ap, ◌∙◌, String, List, [], ◌∷◌, map}
use go_health.Go.Exec.{returned, fork_join, continue-eq-returned}
use go_health.Go.Context.{Context}
use go_health.Go.Time.{rfc3339_nano}
use go_health.Core.Check.{Check, ComponentStatus}
use go_health.Core.Engine.{system_time_check_name}
use go_health.Core.Observe.{run_one}
use go_health.Core.Run.{system_time_entry, collect, run_checks}

-- The map before the checks are collected.
abbrev pub initial : ℕ → List (String × List ComponentStatus)
initial t = (system_time_check_name, system_time_entry (rfc3339_nano t) ∷ []) ∷ []

-- What a run that started at `t` and ended at `u` did.
pub record Ran (delay : ℕ → ℕ) (ctx : Context) (checks : List Check) (t u : ℕ)
    (out : List (String × List ComponentStatus)) : Type 0 where
  pub slots : List (List ComponentStatus)
  pub ended : fork_join delay (map (run_one ctx) checks) t ≡ returned slots u
  pub collected : out ≡ collect checks slots (initial t)

pub run_checks-Ran :
    (delay : ℕ → ℕ) (ctx : Context) (checks : List Check) (t u : ℕ)
    (out : List (String × List ComponentStatus))
    → run_checks delay ctx checks t ≡ returned out u
    → Ran delay ctx checks t u out
unfolding run_checks collect fork_join
run_checks-Ran delay ctx [] t u out e = record { slots = []; ended = cc; collected = cc }
run_checks-Ran delay ctx (c ∷ checks) t u out e =
    let (slots, v, ended, last) =
      continue-eq-returned (fork_join delay (map (run_one ctx) (c ∷ checks)) t)
        (λ rs w. returned (collect (c ∷ checks) rs (initial t)) w) e in
    let same : v ≡ u = cc in
    record { slots = slots; ended = ended ∙ ap (returned slots) same; collected = cc }
