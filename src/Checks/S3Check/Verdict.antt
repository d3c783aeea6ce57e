-- ===== src/Checks/S3Check/Verdict.antt =====
-- What the S3 check reports.
use go_health.Prelude.{ℕ, ◌≡◌, refl, ap, String, [], ◌∷◌, Option, none, some}
use go_health.Go.Exec.{returned, pure, continue}
use go_health.Go.Context.{Context}
use go_health.Core.Check.{ComponentStatus}
use go_health.Core.Observe.{check_context, run_one}
use go_health.Core.Observe.Single.{Judged, run_one_single}
use go_health.Checks.S3Check.{BucketHeader, verdict, new_with_header}

-- When HeadBucket for the bucket returns, under the context with the deadline of the check, the check
-- has one entry: it passes if there was no error, and else fails with the text of the error.
pub new_with_header_reports :
    (h : BucketHeader) (bucket : String) (ctx : Context) (t u : ℕ) (err : Option String)
    → h.head_bucket (check_context ctx (new_with_header h bucket) t) (record { bucket = bucket }) t
      ≡ returned err u
    → (cs : ComponentStatus) × (run_one ctx (new_with_header h bucket) t ≡ returned (cs ∷ []) u)
      × Judged err cs
      × (cs.component_id ≡ "")
unfolding new_with_header
new_with_header_reports h bucket ctx t u none e =
    run_one_single ctx (new_with_header h bucket) t u _ _ none refl
      (ap (λ o. continue o (λ r. pure (verdict r))) e) refl
new_with_header_reports h bucket ctx t u (some err) e =
    run_one_single ctx (new_with_header h bucket) t u _ _ (some err) refl
      (ap (λ o. continue o (λ r. pure (verdict r))) e) (refl, refl)
