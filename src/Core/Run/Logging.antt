-- ===== src/Core/Run/Logging.antt =====
-- What a run writes to the log, and what a nil logger does.
use Prim.Native.String
use go_health.Prelude.{
  ℕ, ◌≡◌, refl, sym, ◌∙◌, ◌≢◌, ◌⊎◌, inl, inr, String, List, [], ◌∷◌, none, some, Option-cases,
  length, ap,
}
use go_health.Go.Exec.{returned, panicked, pure, continue}
use go_health.Go.Context.{Context}
use go_health.Core.Status.{
  Status, status_pass, status_warn, status_fail, pass-ne-fail, pass-ne-warn, warn-ne-fail,
}
use go_health.Core.Check.{ComponentStatus, HealthResponse}
use go_health.Core.Engine.{Engine, Logger}
use go_health.Core.Engine.History.{Probe, checks_of}
use go_health.Core.Aggregate.{aggregate}
use go_health.Core.Aggregate.Strict.{aggregate_cases}
use go_health.Core.Log.{Level, warn, error, LogEntry, nil_dereference}
use go_health.Core.Log.Levels.{
  LogsAt, suffix, entry_at, emit_log-silent, emit_log-emit, emit-some, emit-none,
}
use go_health.Core.Run.{run_checks}
use go_health.Core.Run.Answer.{run, kind, assembled, run-Answered, run-after_checks}

-- An aggregate is silent, or has a level.
aggregate-levels :
    (out : List (String × List ComponentStatus)) (status : Status)
    → status ≡ aggregate out
    → ((status ≡ status_pass) × (status ≢ status_warn) × (status ≢ status_fail))
      ⊎ ((level : Level) × LogsAt status level × (status ≢ status_pass))
aggregate-levels out status s = elim (aggregate_cases out) [
  | inl (e, _) ↦ inr (error, s ∙ e, λ h. pass-ne-fail (sym h ∙ s ∙ e))
  | inr (inl (e, _, _)) ↦ inr (warn, s ∙ e, λ h. pass-ne-warn (sym h ∙ s ∙ e))
  | inr (inr (e, _, _)) ↦
      inl (s ∙ e, λ h. pass-ne-warn (sym (s ∙ e) ∙ h), λ h. pass-ne-fail (sym (s ∙ e) ∙ h))
]

module _ (p : Probe) (e : Engine) (delay : ℕ → ℕ) (ctx : Context) (t : ℕ) where
  abbrev entry : Logger → Level → Status → LogEntry
  entry l level status = entry_at l level (kind p) status (length (checks_of p e))

  abbrev message : Level → String
  message level = String.◌++◌ (kind p) (suffix level)

  -- A run that returns writes nothing when its status is pass; else it writes one entry to the logger
  -- of the engine: at warn level for warn and at error level for fail, with the name of the probe, the
  -- status and the number of its checks.
  pub run_logs :
      (u : ℕ) (response : HealthResponse) (logged : List LogEntry)
      → run p e delay ctx t ≡ returned (response, logged) u
      → ((response.status ≡ status_pass) × (logged ≡ []))
        ⊎ ((level : Level) × (l : Logger) × (e.logger ≡ some l)
            × LogsAt response.status level
            × (logged ≡ entry l level response.status ∷ []))
  run_logs u response logged h =
      let (_, status, _, _, emitted) = run-Answered p e delay ctx t u response logged h in
      let n = length (checks_of p e) in
      elim (aggregate-levels response.checks response.status status) [
        | inl (pass, not_warn, not_fail) ↦
            let silent = emit_log-silent e (kind p) response.status n u not_warn not_fail in
            let none_written : logged ≡ [] = cc in inl (pass, none_written)
        | inr (level, at, _) ↦
            let written = emit_log-emit e (kind p) response.status n u level at in
            elim (Option-cases e.logger) [
              | inl nil ↦ cc (emit-none level (message level) response.status n u nil)
              | inr (l, has) ↦
                  let one = emit-some level (message level) response.status n u has in
                  inr (level, l, has, at, cc)
            ]
      ]

  pub run_logs-pass :
      (u : ℕ) (response : HealthResponse) (logged : List LogEntry)
      → run p e delay ctx t ≡ returned (response, logged) u
      → response.status ≡ status_pass
      → logged ≡ []
  run_logs-pass u response logged h pass = elim (run_logs u response logged h) [
    | inl (_, silent) ↦ silent
    | inr (warn, l, has, at, written) ↦ absurd (pass-ne-warn (sym pass ∙ at))
    | inr (error, l, has, at, written) ↦ absurd (pass-ne-fail (sym pass ∙ at))
  ]

  pub run_logs-fail :
      (u : ℕ) (response : HealthResponse) (logged : List LogEntry) (l : Logger)
      → run p e delay ctx t ≡ returned (response, logged) u
      → response.status ≡ status_fail
      → e.logger ≡ some l
      → logged ≡ entry l error status_fail ∷ []
  run_logs-fail u response logged l h fail has = elim (run_logs u response logged h) [
    | inl (pass, _) ↦ absurd (pass-ne-fail (sym pass ∙ fail))
    | inr (warn, l', has', at, written) ↦ absurd (warn-ne-fail (sym at ∙ fail))
    | inr (error, l', has', at, written) ↦ let same : l' ≡ l = cc in rw (same, fail) at written
  ]

  -- With a nil logger, a run whose checks have returned answers, with what was collected of them, where
  -- the aggregate of that is a pass, so that no entry warns or fails, and panics where it is not.
  pub run_nil_logger :
      (u : ℕ) (out : List (String × List ComponentStatus))
      → e.logger ≡ none
      → run_checks delay ctx (checks_of p e) t ≡ returned out u
      → ((aggregate out ≡ status_pass)
          × ((response : HealthResponse) × (run p e delay ctx t ≡ returned (response, []) u)
              × (response.checks ≡ out)))
        ⊎ ((aggregate out ≢ status_pass) × (run p e delay ctx t ≡ panicked nil_dereference))
  run_nil_logger u out nil ran =
      let n = length (checks_of p e) in
      let rest =
        λ (l : List LogEntry). pure (assembled e delay ctx (kind p) (checks_of p e) out, l) in
      let forward = run-after_checks p e delay ctx t u out ran in
      elim (aggregate-levels out (aggregate out) refl) [
        | inl (pass, not_warn, not_fail) ↦ inl (
          pass,
          (
            assembled e delay ctx (kind p) (checks_of p e) out,
            forward
                ∙ ap (λ o. continue o rest)
                    (emit_log-silent e (kind p) (aggregate out) n u not_warn not_fail),
            refl,
          ),
        )
        | inr (level, at, not_pass) ↦ inr (
          not_pass,
          forward
              ∙ ap (λ o. continue o rest)
                  (emit_log-emit e (kind p) (aggregate out) n u level at
                    ∙ emit-none level (message level) (aggregate out) n u nil),
        )
      ]
