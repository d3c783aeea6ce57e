-- ===== src/Go/Context.antt =====
-- context.Context, as far as a check can see it: when it is done.
use go_health.Prelude.{ℕ, min, Bool, false, ◌||◌, Option, none, some, leb}
use go_health.Go.Duration.{ℤ, add}

pub record Context : Type 0 where
  pub deadline : Option ℕ
  -- when the caller cancels it, for instance because the client disconnects
  pub cancelled_at : Option ℕ

abbrev pub background : Context
background = record { deadline = none; cancelled_at = none }

-- context.WithDeadline: an earlier deadline of the parent stands.
abbrev pub sooner : Option ℕ → ℕ → ℕ
sooner none d = d
sooner (some p) d = min p d

-- context.WithTimeout(parent, timeout), called at the reading `t`. The cancellation of the parent
-- reaches the child; `cancel` itself runs after the check has returned, and so tells it nothing.
unfoldable pub with_timeout : Context → ℤ → ℕ → Context
with_timeout parent timeout t = record parent {
  deadline = some (sooner parent.deadline (add t timeout));
}

abbrev pub passed : Option ℕ → ℕ → Bool
passed none t = false
passed (some d) t = leb d t

-- Whether ctx.Done() is closed at the reading `t`.
unfoldable pub is_done : Context → ℕ → Bool
is_done ctx t = passed ctx.deadline t || passed ctx.cancelled_at t
