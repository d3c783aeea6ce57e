-- ===== src/Adapters/Http/Endpoints.antt =====
-- The three endpoints, from the checks to the status code on the wire.
use go_health.Prelude.{
  ℕ, ◌≡◌, refl, ap, sym, ◌∙◌, ◌↔◌, ◌⊎◌, inl, inr, String, List, Option, some, map, [], ◌∷◌, Any,
  Bool-cases, true,
}
use mathlib.Core.Path.{subst}
use go_health.Go.Exec.Join.{fork_join-Joined}
use go_health.Go.Exec.{returned, fork_join, continue, continue-eq-returned}
use go_health.Go.Context.{Context}
use go_health.Go.Json.{Json, encoded, failed}
use go_health.Go.Http.{ResponseWriter, fresh}
use go_health.Core.Status.{status_fail}
use go_health.Core.Check.{Check, ComponentStatus, HealthResponse}
use go_health.Core.Check.Encode.{encode}
use go_health.Core.Engine.{Engine, Logger, done}
use go_health.Core.Engine.History.{
  Scope, Probe, live, ready, dashboard, checks_of, covers, chosen, build,
}
use go_health.Core.Engine.Cascade.{build-checks_of}
use go_health.Core.Aggregate.Strict.{Has}
use go_health.Core.Run.Failing.{member-Observed}
use go_health.Core.Observe.{run_one}
use go_health.Core.Log.{LogEntry}
use go_health.Core.Run.Answer.{run}
use go_health.Core.Run.Verdict.{Observed, run_verdict}
use go_health.Adapters.Http.{Served, Handler, write, livez_handler, readyz_handler, healthz_handler}
use go_health.Adapters.Http.Reply.{
  http_status_code_cases, Encoded-cases, write-IsSent, write-IsRefused, write-panics,
}

abbrev pub handler : Probe → Engine → (ℕ → ℕ) → Handler
handler live = livez_handler
handler ready = readyz_handler
handler dashboard = healthz_handler

pub handler-continue :
    (p : Probe) (e : Engine) (delay : ℕ → ℕ) (ctx : Context) (w : ResponseWriter) (t : ℕ)
    → handler p e delay ctx w t
      ≡ continue (run p e delay ctx t) (λ (a : HealthResponse × List LogEntry). write a.0 a.1 w)
unfolding livez_handler readyz_handler healthz_handler
handler-continue live e delay ctx w t = refl
handler-continue ready e delay ctx w t = refl
handler-continue dashboard e delay ctx w t = refl

-- How the code on the wire came about.
pub data Wire (slots : List (List ComponentStatus)) (response : HealthResponse) (code : Option ℕ)
    : Type 0 where
  unavailable :
      (doc : Json)
      → encode response ≡ encoded doc
      → code ≡ some 503
      → Observed status_fail slots
      → Wire slots response code
  available :
      (doc : Json)
      → encode response ≡ encoded doc
      → code ≡ some 200
      → ¬ Observed status_fail slots
      → Wire slots response code
  unencodable :
      (err : String) → encode response ≡ failed err → code ≡ some 500 → Wire slots response code

pub returned-inv :
    {A : Type 0} {a b : A} {t u : ℕ} → returned a t ≡ returned b u → (a ≡ b) × (t ≡ u)
returned-inv h = (cc, cc)

pub write-Wire :
    (response : HealthResponse) (logged : List LogEntry) (broken : Option String) (t u : ℕ)
    (served : Served) (slots : List (List ComponentStatus))
    → (response.status ≡ status_fail) ↔ Observed status_fail slots
    → write response logged (fresh broken) t ≡ returned served u
    → (t ≡ u) × Wire slots response served.writer.status
write-Wire response logged broken t u served slots fails h =
    elim (Encoded-cases (encode response)) [
      | inl (doc, e) ↦
          let (sent, written, is_sent) = write-IsSent response doc logged broken t e in
          let (same, time) = returned-inv (sym written ∙ h) in
          let status = ap (λ (s : Served). s.writer.status) (sym same) ∙ is_sent.status in
          elim (http_status_code_cases response.status) [
            | inl (failing, code) ↦
                (time, unavailable doc e (status ∙ ap some code) (fails.0 failing))
            | inr (other, code) ↦
                (time, available doc e (status ∙ ap some code) (λ o. other (fails.1 o)))
          ]
      | inr (inl (err, e)) ↦
          let (sent, written, is_refused) = write-IsRefused response err logged broken t e in
          let (same, time) = returned-inv (sym written ∙ h) in
          (
            time,
            unencodable err e (ap (λ (s : Served). s.writer.status) (sym same) ∙ is_refused.status),
          )
      | inr (inr (message, e)) ↦ cc (write-panics response message logged (fresh broken) t e)
    ]

-- When a handler returns, the Run method of its probe has returned a response, with a slot from each
-- check of the probe; the code is 503 exactly when some observation in a slot fails, and 200 when none
-- does, unless the response does not encode: then it is 500 in either case.
pub handler-Wire :
    (p : Probe) (e : Engine) (delay : ℕ → ℕ) (ctx : Context) (broken : Option String) (t u : ℕ)
    (served : Served)
    → handler p e delay ctx (fresh broken) t ≡ returned served u
    → (slots : List (List ComponentStatus)) × (response : HealthResponse) × (logged : List LogEntry)
      × (run p e delay ctx t ≡ returned (response, logged) u)
      × (fork_join delay (map (run_one ctx) (checks_of p e)) t ≡ returned slots u)
      × Wire slots response served.writer.status
handler-Wire p e delay ctx broken t u served h =
    let ((response, logged), v, ran, written) =
      continue-eq-returned (run p e delay ctx t)
        (λ (a : HealthResponse × List LogEntry). write a.0 a.1 (fresh broken))
        (sym (handler-continue p e delay ctx (fresh broken) t) ∙ h) in
    let (slots, ended, fails, _, _) = run_verdict p e delay ctx t v response logged ran in
    let (time, wire) = write-Wire response logged broken v u served slots fails written in
    (
      slots,
      response,
      logged,
      ran ∙ ap (returned (response, logged)) time,
      ended ∙ ap (returned slots) time,
      wire,
    )

module _ (ctx : Context) (c : Check)
    (down : (t u : ℕ) (found : List ComponentStatus)
      → run_one ctx c t ≡ returned found u
      → Has status_fail found) where
  -- The check was registered at a scope that covers the probe.
  abbrev IsOn : Probe → Scope × Check → Type 0
  IsOn p r = (covers r.0 p ≡ true) × (r.1 ≡ c)

  IsOn-chosen :
      (p : Probe) (history : List (Scope × Check))
      → Any (IsOn p) history
      → Any (λ d. d ≡ c) (chosen p history)
  IsOn-chosen p [] m = absurd m
  IsOn-chosen p ((scope, d) ∷ history) m = elim m [
    | inl (on, same) ↦ rw on (inl same)
    | inr later ↦ elim (Bool-cases (covers scope p)) [
      | inl on ↦ rw on (inr (IsOn-chosen p history later))
      | inr off ↦ rw off (IsOn-chosen p history later)
    ]
  ]

  -- A service registered, at a scope that covers the probe, a check that fails each time it is run
  -- under the context of the request. Then, when the handler of the probe returns, the Run method has
  -- returned a response, and the code on the wire is 503, or it is 500 and the response does not
  -- encode.
  pub handler_unavailable :
      (p : Probe) (service_id description : String) (loggers : List (Option Logger))
      (history : List (Scope × Check)) (e : Engine) (delay : ℕ → ℕ) (broken : Option String)
      (t u : ℕ) (served : Served)
      → build service_id description loggers history ≡ done e
      → Any (IsOn p) history
      → handler p e delay ctx (fresh broken) t ≡ returned served u
      → (response : HealthResponse) × (logged : List LogEntry) × (run p e delay ctx t
          ≡ returned (response, logged) u)
        × ((served.writer.status ≡ some 503)
            ⊎ ((served.writer.status ≡ some 500)
                × ((err : String) × (encode response ≡ failed err))))
  handler_unavailable p service_id description loggers history e delay broken t u served built on
        h =
      let (slots, response, logged, ran, ended, wire) =
        handler-Wire p e delay ctx broken t u served h in
      let on_probe : Any (λ d. d ≡ c) (checks_of p e) =
        subst (Any (λ d. d ≡ c)) (build-checks_of p service_id description loggers history e built)
          (IsOn-chosen p history on) in
      let failed =
        member-Observed ctx c down delay t u (checks_of p e) slots
          (fork_join-Joined delay _ t u slots ended) on_probe in
      (
        response,
        logged,
        ran,
        elim wire [
          | unavailable doc _ code _ ↦ inl code
          | available doc _ code none_fails ↦ absurd (none_fails failed)
          | unencodable err refused code ↦ inr (code, (err, refused))
        ],
      )
