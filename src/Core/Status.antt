-- ===== src/Core/Status.antt =====
-- core/status.go. A status is any string, as in the source; three values are named.
use go_health.Prelude.{ℕ, String, ◌≢◌, refl, ◌==◌, ne_of_test, if◌then◌else◌}

abbrev pub Status : Type 0
Status = String

abbrev pub status_pass : Status
status_pass = "pass"

abbrev pub status_warn : Status
status_warn = "warn"

abbrev pub status_fail : Status
status_fail = "fail"

-- http.StatusOK, http.StatusServiceUnavailable
abbrev pub status_ok : ℕ
status_ok = 200

abbrev pub status_service_unavailable : ℕ
status_service_unavailable = 503

unfoldable pub http_status_code : Status → ℕ
http_status_code s = if s == status_fail then status_service_unavailable else status_ok

-- The three names are different strings.
pub warn-ne-fail : status_warn ≢ status_fail
warn-ne-fail = ne_of_test _ _ refl

pub pass-ne-fail : status_pass ≢ status_fail
pass-ne-fail = ne_of_test _ _ refl

pub pass-ne-warn : status_pass ≢ status_warn
pass-ne-warn = ne_of_test _ _ refl
