-- ===== src/Checks/Contract.antt =====
-- core/check.go: the contract of Check.Run, as the ready-made checks are to keep it, with entries that
-- encode and a timeout of at most five seconds.
use go_health.Prelude.{ℕ, ◌≤◌, ◌≡◌, true, List, some, All}
use go_health.Go.Exec.{Exec}
use go_health.Go.Exec.Prompt.{Honours, Ends-mono}
use go_health.Go.Duration.{add, is_positive, seconds}
use go_health.Go.Context.{Context}
use go_health.Go.Json.{nil}
use go_health.Core.Check.{Result, Check}

-- A result with no observed value.
abbrev pub IsPlain : Result → Type 0
IsPlain r = r.observed_value ≡ nil

pub record Promises (grace : ℕ) (c : Check) : Type 0 where
  pub run : Context → Exec (List Result)
  pub has_run : c.run ≡ some run
  pub honours : Honours (λ d results. All IsPlain results) grace run
  pub limited : is_positive c.timeout ≡ true
  pub soon : (latest : ℕ) → add latest c.timeout ≤ add latest (seconds 5)

pub Promises-mono : {g h : ℕ} (c : Check) → g ≤ h → Promises g c → Promises h c
Promises-mono c le p = record {
  run = p.run;
  has_run = p.has_run;
  honours = λ ctx d over. Ends-mono d _ (p.run ctx) le (p.honours ctx d over);
  limited = p.limited;
  soon = p.soon;
}
