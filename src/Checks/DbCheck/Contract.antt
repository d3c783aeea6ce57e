-- ===== src/Checks/DbCheck/Contract.antt =====
-- checks/dbcheck/dbcheck.go: the contract of Run, from that of the pinger.
use go_health.Prelude.{ℕ, refl, Option, none, some, String, All, arith}
use go_health.Go.Exec.Prompt.{Ends-value, Anything, Honours}
use go_health.Checks.Contract.{IsPlain, Promises}
use go_health.Checks.DbCheck.{Pinger, verdict, new}

verdict-IsPlain : (err : Option String) → All IsPlain (verdict err)
verdict-IsPlain none = (refl, tt)
verdict-IsPlain (some err) = (refl, tt)

pub new-Promises :
    (p : Pinger) (g : ℕ) → Honours (λ d. Anything) g p.ping_context → Promises g (new p)
unfolding new
new-Promises p g pings = record {
  run = _;
  has_run = refl;
  honours = λ ctx d over.
      Ends-value d g Anything (All IsPlain) (p.ping_context ctx) verdict (pings ctx d over)
        (λ err _. verdict-IsPlain err);
  limited = refl;
  soon = λ latest. omega arith;
}
