-- ===== src/Adapters/Http/Encodable.antt =====
-- The endpoints over checks whose values encode.
use go_health.Prelude.{
  ℕ, max, ◌≤◌, ◌≡◌, ◌∙◌, ap, ◌⊎◌, inl, inr, String, List, Option, some, map, All,
}
use go_health.Go.Exec.{returned, fork_join, continue}
use go_health.Go.Exec.Join.{Joined}
use go_health.Go.Context.{Context}
use go_health.Go.Http.{fresh}
use go_health.Core.Status.{status_fail}
use go_health.Core.Check.{ComponentStatus, HealthResponse}
use go_health.Core.Check.Encode.Total.{Encodes}
use go_health.Core.Engine.{Engine, Logger}
use go_health.Core.Engine.History.{Probe, checks_of}
use go_health.Core.Observe.{run_one}
use go_health.Core.Log.{LogEntry}
use go_health.Core.Run.Verdict.{Observed, run_verdict}
use go_health.Core.Run.Total.{run_total}
use go_health.Core.Run.Whole.{Leaves}
use go_health.Adapters.Http.{Served, write}
use go_health.Adapters.Http.Reply.{http_status_code_cases, write-IsSent}
use go_health.Adapters.Http.Sent.{run-encoded, handler-IsSent}
use go_health.Adapters.Http.Endpoints.{handler, handler-continue}

-- Where the values that the checks of a probe observe are nil or encode by themselves, a handler that
-- returns has answered with 503, and some observation fails, or with 200, and none does: a 500 is out
-- of the question.
pub handler_answers :
    (p : Probe) (e : Engine) (delay : ℕ → ℕ) (ctx : Context) (broken : Option String) (t u : ℕ)
    (served : Served)
    → All (Leaves Encodes ctx) (checks_of p e)
    → handler p e delay ctx (fresh broken) t ≡ returned served u
    → (slots : List (List ComponentStatus)) × (fork_join delay (map (run_one ctx) (checks_of p e)) t
        ≡ returned slots u)
      × (((served.writer.status ≡ some 503) × Observed status_fail slots)
          ⊎ ((served.writer.status ≡ some 200) × ¬ Observed status_fail slots))
handler_answers p e delay ctx broken t u served leaves h =
    let (response, logged, doc, ran, encodes, is_sent) =
      handler-IsSent p e delay ctx broken t u served leaves h in
    let (slots, ended, (fail_to, fail_from), _, _) =
      run_verdict p e delay ctx t u response logged ran in
    (
      slots,
      ended,
      elim (http_status_code_cases response.status) [
        | inl (fails, code) ↦ inl (is_sent.status ∙ ap some code, fail_to fails)
        | inr (passes, code) ↦
            inr (is_sent.status ∙ ap some code, λ failed. passes (fail_from failed))
      ],
    )

-- With a logger, where each check of the probe returns by the reading `u`, and the values that it
-- observes are nil or encode by themselves, the handler returns by then too.
pub handler_total :
    (p : Probe) (e : Engine) (l : Logger) (delay : ℕ → ℕ) (ctx : Context) (broken : Option String)
    (t u : ℕ) (slots : List (List ComponentStatus))
    → e.logger ≡ some l
    → All (Leaves Encodes ctx) (checks_of p e)
    → Joined delay t u (map (run_one ctx) (checks_of p e)) slots
    → (served : Served) × (w : ℕ) × (handler p e delay ctx (fresh broken) t ≡ returned served w)
      × (w ≤ max t u)
handler_total p e l delay ctx broken t u slots has leaves j =
    let (response, logged, w, ran, _, early) = run_total p e l delay ctx t u slots has j in
    let (doc, encodes) = run-encoded p e delay ctx t w response logged leaves ran in
    let (served, written, _) = write-IsSent response doc logged broken w encodes in
    let answer = λ (a : HealthResponse × List LogEntry). write a.0 a.1 (fresh broken) in
    (
      served,
      w,
      handler-continue p e delay ctx (fresh broken) t ∙ ap (λ o. continue o answer) ran ∙ written,
      early,
    )
