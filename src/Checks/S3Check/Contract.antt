-- ===== src/Checks/S3Check/Contract.antt =====
-- checks/s3check/s3check.go: the contract of Run, from that of the client.
use go_health.Prelude.{ℕ, refl, Option, none, some, String, All, arith}
use go_health.Go.Exec.Prompt.{Ends-value, Anything, Honours}
use go_health.Checks.Contract.{IsPlain, Promises}
use go_health.Checks.S3Check.{BucketHeader, verdict, new_with_header}

verdict-IsPlain : (err : Option String) → All IsPlain (verdict err)
verdict-IsPlain none = (refl, tt)
verdict-IsPlain (some err) = (refl, tt)

pub new_with_header-Promises :
    (h : BucketHeader) (bucket : String) (g : ℕ)
    → Honours (λ d. Anything) g (λ ctx. h.head_bucket ctx (record { bucket = bucket }))
    → Promises g (new_with_header h bucket)
unfolding new_with_header
new_with_header-Promises h bucket g answers = record {
  run = _;
  has_run = refl;
  honours = λ ctx d over.
      Ends-value d g Anything (All IsPlain) (h.head_bucket ctx (record { bucket = bucket })) verdict
        (answers ctx d over) (λ err _. verdict-IsPlain err);
  limited = refl;
  soon = λ latest. omega arith;
}
