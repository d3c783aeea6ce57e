-- ===== src/Checks/S3Check.antt =====
-- checks/s3check/s3check.go. The client of the AWS SDK is a parameter: a call takes time and returns
-- the text of its error.
pub mod Contract
pub mod Health
pub mod Verdict
use go_health.Prelude.{String, List, [], ◌∷◌, Option, none, some}
use go_health.Go.Exec.{Exec, pure, ◌>>=◌}
use go_health.Go.Duration.{ℤ, seconds}
use go_health.Go.Context.{Context}
use go_health.Core.Status.{status_pass, status_fail}
use go_health.Core.Check.{Result, zero_result, Check}

abbrev pub default_name : String
default_name = "storage"

abbrev pub default_component_type : String
default_component_type = "datastore"

abbrev pub default_timeout : ℤ
default_timeout = seconds 5

-- s3.HeadBucketInput
pub record HeadBucketInput : Type 0 where
  pub bucket : String

pub record BucketHeader : Type 0 where
  pub head_bucket : Context → HeadBucketInput → Exec (Option String)

abbrev pub verdict : Option String → List Result
verdict (some err) = record zero_result { status = status_fail; output = err } ∷ []
verdict none = record zero_result { status = status_pass } ∷ []

unfoldable pub new_with_header : BucketHeader → String → Check
new_with_header h bucket = record {
  name = default_name;
  component_type = default_component_type;
  timeout = default_timeout;
  run = some (λ ctx. do err ← h.head_bucket ctx (record { bucket = bucket }); pure (verdict err));
}

-- `client` is an *s3.Client.
unfoldable pub new : BucketHeader → String → Check
new client bucket = new_with_header client bucket
