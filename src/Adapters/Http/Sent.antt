-- ===== src/Adapters/Http/Sent.antt =====
-- The endpoints over checks whose values encode: the response that was sent.
use mathlib.Core.Path.{subst}
use go_health.Prelude.{ℕ, ◌≡◌, sym, ◌∙◌, ap, String, List, Option, All}
use go_health.Go.Exec.{returned, continue-eq-returned}
use go_health.Go.Context.{Context}
use go_health.Go.Time.{rfc3339_nano}
use go_health.Go.Json.{Json, encoded}
use go_health.Go.Http.{fresh}
use go_health.Core.Check.{HealthResponse}
use go_health.Core.Check.Encode.{encode}
use go_health.Core.Check.Encode.Total.{Encodes, encode-encoded}
use go_health.Core.Engine.{Engine}
use go_health.Core.Engine.History.{Probe, checks_of}
use go_health.Core.Log.{LogEntry}
use go_health.Core.Run.{system_time_entry}
use go_health.Core.Run.Answer.{run, run-Answered}
use go_health.Core.Run.Whole.{Leaves, run_checks-Throughout}
use go_health.Adapters.Http.{Served, write}
use go_health.Adapters.Http.Reply.{IsSent, write-IsSent}
use go_health.Adapters.Http.Endpoints.{handler, handler-continue, returned-inv}

heartbeat-Encodes : (t : ℕ) → Encodes (system_time_entry (rfc3339_nano t))
unfolding system_time_entry
heartbeat-Encodes t = tt

pub run-encoded :
    (p : Probe) (e : Engine) (delay : ℕ → ℕ) (ctx : Context) (t u : ℕ) (response : HealthResponse)
    (logged : List LogEntry)
    → All (Leaves Encodes ctx) (checks_of p e)
    → run p e delay ctx t ≡ returned (response, logged) u
    → (doc : Json) × (encode response ≡ encoded doc)
run-encoded p e delay ctx t u response logged leaves ran =
    let (checked, _, _, _, _) = run-Answered p e delay ctx t u response logged ran in
    (encode-encoded response).1 (
      run_checks-Throughout Encodes delay ctx (checks_of p e) t u response.checks
        (heartbeat-Encodes t) leaves checked)

-- A handler that returns has sent the response of its Run method.
pub handler-IsSent :
    (p : Probe) (e : Engine) (delay : ℕ → ℕ) (ctx : Context) (broken : Option String) (t u : ℕ)
    (served : Served)
    → All (Leaves Encodes ctx) (checks_of p e)
    → handler p e delay ctx (fresh broken) t ≡ returned served u
    → (response : HealthResponse) × (logged : List LogEntry) × (doc : Json) × (run p e delay ctx t
        ≡ returned (response, logged) u)
      × (encode response ≡ encoded doc)
      × IsSent response doc (fresh broken) logged served
handler-IsSent p e delay ctx broken t u served leaves h =
    let ((response, logged), v, ran, written) =
      continue-eq-returned (run p e delay ctx t)
        (λ (a : HealthResponse × List LogEntry). write a.0 a.1 (fresh broken))
        (sym (handler-continue p e delay ctx (fresh broken) t) ∙ h) in
    let (doc, encodes) = run-encoded p e delay ctx t v response logged leaves ran in
    let (sent, sent_so, is_sent) = write-IsSent response doc logged broken v encodes in
    let (same, time) = returned-inv (sym sent_so ∙ written) in
    (
      response,
      logged,
      doc,
      ran ∙ ap (returned (response, logged)) time,
      encodes,
      subst (IsSent response doc (fresh broken) logged) same is_sent,
    )
