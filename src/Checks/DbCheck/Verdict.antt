-- ===== src/Checks/DbCheck/Verdict.antt =====
-- What the database check reports.
use go_health.Prelude.{ℕ, ◌≡◌, refl, ap, String, [], ◌∷◌, Option, none, some}
use go_health.Go.Exec.{returned, pure, continue}
use go_health.Go.Context.{Context}
use go_health.Core.Check.{ComponentStatus}
use go_health.Core.Observe.{check_context, run_one}
use go_health.Core.Observe.Single.{Judged, run_one_single}
use go_health.Checks.DbCheck.{Pinger, verdict, new}

-- When the ping returns, under the context with the deadline of the check, the check has one entry:
-- it passes if there was no error, and else fails with the text of the error.
pub new_reports :
    (p : Pinger) (ctx : Context) (t u : ℕ) (err : Option String)
    → p.ping_context (check_context ctx (new p) t) t ≡ returned err u
    → (cs : ComponentStatus) × (run_one ctx (new p) t ≡ returned (cs ∷ []) u)
      × Judged err cs
      × (cs.component_id ≡ "")
unfolding new
new_reports p ctx t u none e =
    run_one_single ctx (new p) t u _ _ none refl (ap (λ o. continue o (λ r. pure (verdict r))) e)
      refl
new_reports p ctx t u (some err) e =
    run_one_single ctx (new p) t u _ _ (some err) refl
      (ap (λ o. continue o (λ r. pure (verdict r))) e) (refl, refl)
