-- ===== src/Core/Observe/Deadline.antt =====
-- The context that a check runs under.
use go_health.Prelude.{ℕ, ◌≡◌, ◌&&◌, ◌||◌, leb, arith}
use go_health.Go.Duration.{is_positive, add}
use go_health.Go.Context.{Context, with_timeout, is_done}
use go_health.Core.Check.{Check}
use go_health.Core.Observe.{check_context}

-- The context of a check is done when the caller's is, or, if the check has a positive timeout, that
-- long after the check was started, and at no other reading.
pub check_context-is_done :
    (parent : Context) (c : Check) (start t : ℕ)
    → is_done (check_context parent c start) t
      ≡ is_done parent t || (is_positive c.timeout && leb (add start c.timeout) t)
unfolding check_context with_timeout is_done
check_context-is_done parent c start t = ground arith
