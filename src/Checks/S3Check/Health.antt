-- ===== src/Checks/S3Check/Health.antt =====
-- checks/s3check/s3check.go: what Run says of the bucket, from the errors of the client.
use go_health.Prelude.{refl, Bool, true, false, String, Option, none, some, inl}
use go_health.Go.Exec.Always.{Always-value}
use go_health.Checks.Health.{Window, Live, Answers, Errs, Gives, Shows}
use go_health.Checks.S3Check.{BucketHeader, verdict, new_with_header}

verdict-Gives : (up : Bool) (err : Option String) → Errs up err → Gives up (verdict err)
verdict-Gives true none h = (refl, tt)
verdict-Gives false (some err) h = inl refl
verdict-Gives true (some err) h = cc
verdict-Gives false none (m, h) = cc

pub new_with_header-Shows :
    (h : BucketHeader) (bucket : String) (window : Window) (up : Bool)
    → Answers window up (Errs up) (λ ctx. h.head_bucket ctx (record { bucket = bucket }))
    → Shows window up (new_with_header h bucket)
unfolding new_with_header
new_with_header-Shows h bucket window up errs = record {
  run = _;
  has_run = refl;
  gives = λ ctx.
      Always-value window.from (Live window up ctx) (Errs up) (Gives up)
        (h.head_bucket ctx (record { bucket = bucket })) verdict (errs ctx) (verdict-Gives up);
}
