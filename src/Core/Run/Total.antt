-- ===== src/Core/Run/Total.antt =====
-- The Run methods return.
use go_health.Prelude.{ℕ, max, ◌≤◌, ◌≡◌, ap, ◌∙◌, List, some, map, length, refl}
use go_health.Go.Exec.{returned, pure, continue}
use go_health.Go.Exec.Join.{Joined}
use go_health.Go.Context.{Context}
use go_health.Core.Check.{ComponentStatus, HealthResponse}
use go_health.Core.Engine.{Engine, Logger}
use go_health.Core.Engine.History.{Probe, checks_of}
use go_health.Core.Observe.{run_one}
use go_health.Core.Aggregate.{aggregate}
use go_health.Core.Log.{LogEntry}
use go_health.Core.Log.Levels.{emit_log-some}
use go_health.Core.Run.{collect}
use go_health.Core.Run.Slots.{initial}
use go_health.Core.Run.Wait.{run_checks_total}
use go_health.Core.Run.Answer.{run, kind, assembled, run-after_checks}

-- With a logger, where each check of the probe returns by the reading `u`, so does the Run method,
-- with what is collected from the slots of the checks.
pub run_total :
    (p : Probe) (e : Engine) (l : Logger) (delay : ℕ → ℕ) (ctx : Context) (t u : ℕ)
    (slots : List (List ComponentStatus))
    → e.logger ≡ some l
    → Joined delay t u (map (run_one ctx) (checks_of p e)) slots
    → (response : HealthResponse) × (logged : List LogEntry) × (w : ℕ) × (run p e delay ctx t
        ≡ returned (response, logged) w)
      × (response.checks ≡ collect (checks_of p e) slots (initial t))
      × (w ≤ max t u)
run_total p e l delay ctx t u slots has j =
    let (w, ran, early) = run_checks_total delay ctx (checks_of p e) t u slots j in
    let out = collect (checks_of p e) slots (initial t) in
    let (logged, emitted) =
      emit_log-some e (kind p) (aggregate out) (length (checks_of p e)) w l has in
    let rest =
      λ (lg : List LogEntry). pure (assembled e delay ctx (kind p) (checks_of p e) out, lg) in
    (
      assembled e delay ctx (kind p) (checks_of p e) out,
      logged,
      w,
      run-after_checks p e delay ctx t w out ran ∙ ap (λ o. continue o rest) emitted,
      refl,
      early,
    )
