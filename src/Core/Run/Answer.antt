-- ===== src/Core/Run/Answer.antt =====
-- The three Run methods taken apart together.
use mathlib.Core.Path.{subst₂}
use go_health.Prelude.{ℕ, ◌≡◌, refl, String, List, length}
use go_health.Go.Exec.{Exec, returned, pure, continue, ◌>>=◌, continue-eq-returned}
use go_health.Go.Context.{Context}
use go_health.Core.Check.{Check, ComponentStatus, HealthResponse}
use go_health.Core.Engine.{Engine}
use go_health.Core.Engine.History.{Probe, live, ready, dashboard, checks_of}
use go_health.Core.Aggregate.{aggregate}
use go_health.Core.Log.{LogEntry, emit_log}
use go_health.Core.Log.Levels.{emit_log-now}
use go_health.Core.Run.{run_checks, probe, run_livez, run_readyz, run_healthz}

abbrev pub run : Probe → Engine → (ℕ → ℕ) → Context → Exec (HealthResponse × List LogEntry)
run live = run_livez
run ready = run_readyz
run dashboard = run_healthz

-- The name of a probe in the log.
abbrev pub kind : Probe → String
kind live = "liveness"
kind ready = "readiness"
kind dashboard = "health"

module _ (e : Engine) (delay : ℕ → ℕ) (ctx : Context) (name : String) (set : List Check) where
  -- What the body shared by the Run methods did when it returned.
  abbrev pub Answered : ℕ → ℕ → HealthResponse → List LogEntry → Type 0
  Answered t u response logged =
      (run_checks delay ctx set t ≡ returned response.checks u)
      × (response.status ≡ aggregate response.checks)
      × (response.service_id ≡ e.service_id)
      × (response.description ≡ e.description)
      × (emit_log e name response.status (length set) u ≡ returned logged u)

  abbrev pub assembled : List (String × List ComponentStatus) → HealthResponse
  assembled checks = record {
    status = aggregate checks;
    service_id = e.service_id;
    description = e.description;
    checks = checks;
  }

  probe-Answered :
      (t u : ℕ) (response : HealthResponse) (logged : List LogEntry)
      → probe e delay ctx name set t ≡ returned (response, logged) u
      → Answered t u response logged
  unfolding probe
  probe-Answered t u response logged h =
      let (checks, v, ran, rest) =
        continue-eq-returned (run_checks delay ctx set t)
          (λ checks.
            emit_log e name (aggregate checks) (length set) >>= λ l. pure (assembled checks, l))
          h in
      let (l, w, emitted, last) =
        continue-eq-returned (emit_log e name (aggregate checks) (length set) v)
          (λ l. pure (assembled checks, l)) rest in
      let same_time : v ≡ w = emit_log-now e name (aggregate checks) (length set) v w l emitted in
      let end : w ≡ u = cc in
      let same_logs : l ≡ logged = cc in
      let whole : assembled checks ≡ response = cc in
      subst₂ (λ (r : HealthResponse) (lg : List LogEntry). Answered t u r lg) whole same_logs
        (cc, refl, refl, refl, cc)

-- So for each of the three methods, over the checks of its probe.
pub run-Answered :
    (p : Probe) (e : Engine) (delay : ℕ → ℕ) (ctx : Context) (t u : ℕ) (response : HealthResponse)
    (logged : List LogEntry)
    → run p e delay ctx t ≡ returned (response, logged) u
    → Answered e delay ctx (kind p) (checks_of p e) t u response logged
unfolding run_livez run_readyz run_healthz
run-Answered live e delay ctx t u response logged h =
    probe-Answered e delay ctx _ _ t u response logged h
run-Answered ready e delay ctx t u response logged h =
    probe-Answered e delay ctx _ _ t u response logged h
run-Answered dashboard e delay ctx t u response logged h =
    probe-Answered e delay ctx _ _ t u response logged h

-- Forward: once the checks have returned, the log decides how the method ends.
pub run-after_checks :
    (p : Probe) (e : Engine) (delay : ℕ → ℕ) (ctx : Context) (t v : ℕ)
    (out : List (String × List ComponentStatus))
    → run_checks delay ctx (checks_of p e) t ≡ returned out v
    → run p e delay ctx t
      ≡ continue
          (emit_log e (kind p) (aggregate out) (length (checks_of p e)) v)
          (λ logged. pure (assembled e delay ctx (kind p) (checks_of p e) out, logged))
unfolding run_livez run_readyz run_healthz
run-after_checks live e delay ctx t v out h = rw h
run-after_checks ready e delay ctx t v out h = rw h
run-after_checks dashboard e delay ctx t v out h = rw h
