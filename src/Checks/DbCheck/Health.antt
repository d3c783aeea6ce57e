-- ===== src/Checks/DbCheck/Health.antt =====
-- checks/dbcheck/dbcheck.go: what Run says of the database, from the errors of the pinger.
use go_health.Prelude.{refl, Bool, true, false, String, Option, none, some, inl}
use go_health.Go.Exec.Always.{Always-value}
use go_health.Checks.Health.{Window, Live, Answers, Errs, Gives, Shows}
use go_health.Checks.DbCheck.{Pinger, verdict, new}

verdict-Gives : (up : Bool) (err : Option String) → Errs up err → Gives up (verdict err)
verdict-Gives true none h = (refl, tt)
verdict-Gives false (some err) h = inl refl
verdict-Gives true (some err) h = cc
verdict-Gives false none (m, h) = cc

pub new-Shows :
    (p : Pinger) (window : Window) (up : Bool)
    → Answers window up (Errs up) p.ping_context
    → Shows window up (new p)
unfolding new
new-Shows p window up errs = record {
  run = _;
  has_run = refl;
  gives = λ ctx.
      Always-value window.from (Live window up ctx) (Errs up) (Gives up) (p.ping_context ctx)
        verdict (errs ctx) (verdict-Gives up);
}
