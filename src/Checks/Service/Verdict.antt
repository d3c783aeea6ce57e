-- ===== src/Checks/Service/Verdict.antt =====
-- What a service says, from what of the things that it looks after is up.
use mathlib.Core.Path.{subst}
use go_health.Prelude.{
  All-mono, Any, ℕ, ◌+◌, ◌*◌, ◌≤◌, ◌<◌, ◌≡◌, refl, ap, ◌∙◌, ◌⊎◌, String, List, [], ◌∷◌, Option,
  none, some, length, All, Bool-cases, inl, inr, true, false, arith,
}
use go_health.Go.Duration.{add, seconds}
use go_health.Go.Exec.{returned}
use go_health.Go.Exec.Join.{fork_join-Joined}
use go_health.Go.Context.{Context}
use go_health.Go.Json.{Json, encoded}
use go_health.Go.Http.{document, fresh}
use go_health.Core.Status.{
  Status, status_pass, status_warn, status_fail, pass-ne-fail, pass-ne-warn, http_status_code,
}
use go_health.Core.Check.{Check, HealthResponse}
use go_health.Core.Check.Decode.{decode}
use go_health.Core.Check.Decode.RoundTrip.{canonical, decode-encode}
use go_health.Core.Check.Encode.{encode}
use go_health.Core.Check.Encode.Total.{Encodes}
use go_health.Core.Engine.{Engine, Logger, done}
use go_health.Core.Engine.History.{Scope, Probe, checks_of, build}
use go_health.Core.Engine.Cascade.{build-checks_of}
use go_health.Core.Log.{error, LogEntry}
use go_health.Core.Log.Levels.{entry_at}
use go_health.Core.Run.Answer.{kind}
use go_health.Core.Run.Logging.{run_logs-pass, run_logs-fail}
use go_health.Core.Run.Verdict.{run_verdict}
use go_health.Core.Run.Whole.{Leaves}
use go_health.Adapters.Http.{Served, Handler}
use go_health.Adapters.Http.Endpoints.{handler}
use go_health.Adapters.Http.Reply.{IsSent}
use go_health.Adapters.Http.Sent.{handler-IsSent}
use go_health.Adapters.HttpRouter.{RouterLibrary, Routes, method_get, mount}
use go_health.Adapters.HttpRouter.Probed.{path_of, serves-handler}
use go_health.Checks.Health.{Window, Shows}
use go_health.Checks.ReadyMade.{ReadyMade}
use go_health.Checks.Service.{Promises-Leaves, build-Promises, service_answers}
use go_health.Checks.Shown.{Overdue, down-Observed, up-Uniform, Uniform-Observed}
use go_health.Checks.Service.Plan.{Plan, is_down, Realises, is_down-Any, is_down-All}

-- The answer says the status: in the code, in the document as it is read back, and in the log. No
-- document is left where the client is gone.
pub record Says (status : Status) (code : ℕ) (logged : List LogEntry) (broken : Option String)
    (served : Served) : Type 0 where
  pub code_so : served.writer.status ≡ some code
  pub doc : Json
  pub answer : HealthResponse
  pub read : decode doc ≡ some answer
  pub status_so : answer.status ≡ status
  pub logs : served.logged ≡ logged
  pub delivered :
      ((broken ≡ none) × (served.writer.body ≡ document doc ∷ []))
      ⊎ ((err : String) × (broken ≡ some err) × (served.writer.body ≡ []))

sent-Says :
    (response : HealthResponse) (doc : Json) (logged logs : List LogEntry) (broken : Option String)
    (served : Served) (status : Status) (code : ℕ)
    → encode response ≡ encoded doc
    → IsSent response doc (fresh broken) logged served
    → response.status ≡ status
    → http_status_code status ≡ code
    → logged ≡ logs
    → Says status code logs broken served
sent-Says response doc logged logs broken served status code encodes is_sent same code_so logs_so =
    record {
      code_so = is_sent.status ∙ ap (λ s. some (http_status_code s)) same ∙ ap some code_so;
      doc = doc;
      answer = canonical response;
      read = decode-encode response doc encodes;
      status_so = same;
      logs = is_sent.logs ∙ logs_so;
      delivered = elim is_sent.delivered [
        | inl (whole, body, _) ↦ inl (whole, body)
        | inr (err, gone, body, _) ↦ inr (err, gone, body)
      ];
    }

-- The entry in the log for a probe with something down.
abbrev pub down_entry : Logger → Probe → Engine → LogEntry
down_entry l p e = entry_at l error (kind p) status_fail (length (checks_of p e))

module _ (p : Probe) (e : Engine) (l : Logger) (delay : ℕ → ℕ) (ctx : Context)
    (broken : Option String) (t u : ℕ) (served : Served) (has : e.logger ≡ some l)
    (leaves : All (Leaves Encodes ctx) (checks_of p e))
    (h : handler p e delay ctx (fresh broken) t ≡ returned served u) (window : Window)
    (after : window.from ≤ t) (before : u ≤ window.until) where
  pub handler_down :
      Any (Shows window false) (checks_of p e)
      → Says status_fail 503 (down_entry l p e ∷ []) broken served
  unfolding http_status_code
  handler_down down =
      let (response, logged, doc, ran, encodes, is_sent) =
        handler-IsSent p e delay ctx broken t u served leaves h in
      let (slots, ended, (_, failed), _, _) = run_verdict p e delay ctx t u response logged ran in
      let fails = failed (
        down-Observed ctx window t u after before delay (checks_of p e) slots
          (fork_join-Joined delay _ t u slots ended) down) in
      sent-Says response doc logged _ broken served status_fail 503 encodes is_sent fails refl
        (run_logs-fail p e delay ctx t u response logged l ran fails has)

  pub handler_up :
      All (Shows window true) (checks_of p e)
      → Says status_pass 200 [] broken served ⊎ Overdue ctx delay t u (checks_of p e)
  unfolding http_status_code
  handler_up up =
      let (response, logged, doc, ran, encodes, is_sent) =
        handler-IsSent p e delay ctx broken t u served leaves h in
      let (slots, ended, _, _, (_, passed)) = run_verdict p e delay ctx t u response logged ran in
      elim (up-Uniform ctx window t u after before delay (checks_of p e) slots
        (fork_join-Joined delay _ t u slots ended) up) [
          | inl uniform ↦
              let passes = passed (
                Uniform-Observed status_warn slots pass-ne-warn uniform,
                Uniform-Observed status_fail slots pass-ne-fail uniform,
              ) in
              inl (
                sent-Says response doc logged [] broken served status_pass 200 encodes is_sent
                  passes refl (run_logs-pass p e delay ctx t u response logged ran passes))
          | inr over ↦ inr over
        ]

-- While a request is served.
abbrev pub served_in : ℕ → ℕ → ℕ → Window
served_in t latest g = record { from = t; until = add latest (seconds 5) + 3 * g }

-- A service with a logger registered nothing but ready-made checks, with timeouts of at most five
-- seconds, and mounted its endpoints on static paths; each call of a client returns no later than a
-- grace after its context is done, or after its own start. A plan says of each thing that the checks
-- look after whether it is up while a request is served, the calls that lead to another one taking no
-- negative time: either its client reports success whenever a call returns before its context is
-- done, or it reports a failure whenever a call returns. A GET of the path of a probe is served, and the
-- answer is there no later than five seconds and three times the grace after the last goroutine has
-- started. If by the plan the probe covers something that is down, the code is 503, the document has
-- the status fail, and the logger has one entry at error level; if it covers nothing that is down, the
-- code is 200, the document has the status pass, and nothing is logged, unless the context of some
-- check is done when the answer is there. A client that is gone gets the code, and no document.
pub service_verdict :
    (library : RouterLibrary) (router mounted : library.Router) (routes : Routes)
    (service_id description : String) (loggers : List (Option Logger)) (plan : Plan)
    (history : List (Scope × Check)) (e : Engine) (l : Logger) (p : Probe) (delay : ℕ → ℕ)
    (ctx : Context) (broken : Option String) (g latest t : ℕ)
    → build service_id description loggers history ≡ done e
    → All (λ r. ReadyMade g r.1) history
    → Realises (served_in t latest g) plan history
    → mount library router e delay routes ≡ done mounted
    → library.IsStatic routes.livez
    → library.IsStatic routes.readyz
    → library.IsStatic routes.healthz
    → e.logger ≡ some l
    → t ≤ latest
    → ((i : ℕ) → i < length (checks_of p e) → t + delay i ≤ latest)
    → (serve : Handler) × (served : Served) × (w : ℕ) × (library.serves mounted method_get
          (path_of p routes)
        ≡ some serve)
      × (serve ctx (fresh broken) t ≡ returned served w)
      × (w ≤ add latest (seconds 5) + 3 * g)
      × (((is_down p plan ≡ true) × Says status_fail 503 (down_entry l p e ∷ []) broken served)
          ⊎ ((is_down p plan ≡ false)
              × (Says status_pass 200 [] broken served ⊎ Overdue ctx delay t w (checks_of p e))))
service_verdict library router mounted routes service_id description loggers plan history e l p
      delay ctx broken g latest t built ready_made realises h s s' s'' has before starts =
    let (serve, served, w, _, at, ran, early, _, _) =
      service_answers library router mounted routes service_id description loggers history e l p
        delay ctx broken g latest t built ready_made h s s' s'' has before starts in
    let window = served_in t latest g in
    let by_handler = serves-handler library router mounted e delay routes p h s s' s'' in
    let same : serve ≡ handler p e delay = cc in
    let handled = subst (λ f. f ctx (fresh broken) t ≡ returned served w) same ran in
    let leaves =
      All-mono (checks_of p e) (Promises-Leaves ctx (3 * g))
        (build-Promises service_id description loggers history e p g built ready_made) in
    let on = build-checks_of p service_id description loggers history e built in
    (
      serve,
      served,
      w,
      at,
      ran,
      early,
      elim (Bool-cases (is_down p plan)) [
        | inl down ↦
            let some_down =
              subst (Any (Shows window false)) on
                (is_down-Any window p plan history realises down) in
            inl (
              down,
              handler_down p e l delay ctx broken t w served has leaves handled window (omega arith)
                  early some_down,
            )
        | inr up ↦
            let all_up =
              subst (All (Shows window true)) on (is_down-All window p plan history realises up) in
            inr (
              up,
              handler_up p e l delay ctx broken t w served has leaves handled window (omega arith)
                  early all_up,
            )
      ],
    )
