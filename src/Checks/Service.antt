-- ===== src/Checks/Service.antt =====
-- A service whose checks are all ready-made, from the router to the clients.
pub mod Plan
pub mod Verdict
use mathlib.Core.Path.{subst}
use go_health.Prelude.{
  All-mono, ℕ, ◌+◌, ◌*◌, ◌≤◌, ◌<◌, ◌≡◌, sym, ◌∙◌, String, List, [], ◌∷◌, Option, some, map, length,
  All, Bool-cases, inl, inr, arith,
}
use go_health.Go.Duration.{add, seconds}
use go_health.Go.Exec.{returned, fork_join}
use go_health.Go.Context.{Context}
use go_health.Go.Http.{fresh}
use go_health.Core.Check.{Result, Check, ComponentStatus}
use go_health.Core.Check.Encode.Total.{IsEncodable, Encodes}
use go_health.Core.Engine.{Engine, Logger, done}
use go_health.Core.Engine.History.{Scope, Probe, checks_of, covers, chosen, build}
use go_health.Core.Engine.Cascade.{chosen-All, build-checks_of}
use go_health.Core.Observe.{run_one, check_context}
use go_health.Core.Observe.Entries.{TellAll}
use go_health.Core.Observe.Inverse.{run_one-inv}
use go_health.Core.Run.Timely.{RunHonours, KeepsContract, check_context_due}
use go_health.Core.Run.Whole.{Leaves}
use go_health.Adapters.Http.{Served, Handler}
use go_health.Adapters.Http.Timely.{Told}
use go_health.Adapters.HttpRouter.{RouterLibrary, Routes, method_get, mount}
use go_health.Adapters.HttpRouter.Probed.{path_of, mounted_timely}
use go_health.Checks.Contract.{IsPlain, Promises}
use go_health.Checks.ReadyMade.{ReadyMade, ReadyMade-Promises}

Promises-KeepsContract : (g : ℕ) (c : Check) → Promises g c → KeepsContract g c
Promises-KeepsContract g c p = subst (RunHonours g) (sym p.has_run) (λ ctx d over s.
    let (results, v, ran, early, _) = p.honours ctx d over s in (results, v, ran, early, tt))

TellAll-Encodes :
    (c : Check) (ended : ℕ) (results : List Result) (found : List ComponentStatus)
    → TellAll c ended results found
    → All IsPlain results
    → All Encodes found
TellAll-Encodes c ended [] [] told plain = tt
TellAll-Encodes c ended (r ∷ results) (cs ∷ found) (tells, told) (here, later) = (
  subst IsEncodable (sym (tells.observed_value ∙ here)) tt,
  TellAll-Encodes c ended results found told later,
)
TellAll-Encodes c ended [] (cs ∷ found) told plain = absurd told
TellAll-Encodes c ended (r ∷ results) [] told plain = absurd told

pub Promises-Leaves : (ctx : Context) (g : ℕ) (c : Check) → Promises g c → Leaves Encodes ctx c
Promises-Leaves ctx g c p t u found told =
    let (results, ran, tells) = run_one-inv ctx c t u p.run found p.has_run told in
    let due =
      check_context_due ctx c t t (add t c.timeout) (omega arith) (inr (p.limited, omega arith)) in
    let (ended, v, ended_so, _, plain) =
      p.honours (check_context ctx c t) (add t c.timeout) due t in
    let same : ended ≡ results = cc in
    TellAll-Encodes c u results found tells (subst (All IsPlain) same plain)

pub build-Promises :
    (service_id description : String) (loggers : List (Option Logger))
    (history : List (Scope × Check)) (e : Engine) (p : Probe) (g : ℕ)
    → build service_id description loggers history ≡ done e
    → All (λ r. ReadyMade g r.1) history
    → All (Promises (3 * g)) (checks_of p e)
build-Promises service_id description loggers history e p g built ready_made =
    subst (All (Promises (3 * g)))
      (build-checks_of p service_id description loggers history e built)
      (All-mono (chosen p history) (λ c. ReadyMade-Promises)
        (chosen-All (ReadyMade g) p history ready_made))

-- A service with a logger registered nothing but ready-made checks, with timeouts of at most five
-- seconds, and mounted its endpoints on static paths; each call of a client returns no later than a
-- grace after its context is done, or after its own start. Then a GET of the path of a probe is
-- served, and the answer is there no later than five seconds and three times the grace after the
-- last goroutine has started, whatever the clients answer. The code is 503, and some observation of a
-- check of the probe fails, or 200, and none does.
pub service_answers :
    (library : RouterLibrary) (router mounted : library.Router) (routes : Routes)
    (service_id description : String) (loggers : List (Option Logger))
    (history : List (Scope × Check)) (e : Engine) (l : Logger) (p : Probe) (delay : ℕ → ℕ)
    (ctx : Context) (broken : Option String) (g latest t : ℕ)
    → build service_id description loggers history ≡ done e
    → All (λ r. ReadyMade g r.1) history
    → mount library router e delay routes ≡ done mounted
    → library.IsStatic routes.livez
    → library.IsStatic routes.readyz
    → library.IsStatic routes.healthz
    → e.logger ≡ some l
    → t ≤ latest
    → ((i : ℕ) → i < length (checks_of p e) → t + delay i ≤ latest)
    → (serve : Handler) × (served : Served) × (w : ℕ) × (slots : List (List ComponentStatus))
      × (library.serves mounted method_get (path_of p routes) ≡ some serve)
      × (serve ctx (fresh broken) t ≡ returned served w)
      × (w ≤ add latest (seconds 5) + 3 * g)
      × (fork_join delay (map (run_one ctx) (checks_of p e)) t ≡ returned slots w)
      × Told served.writer.status slots
service_answers library router mounted routes service_id description loggers history e l p delay ctx
      broken g latest t built ready_made h s s' s'' has before starts =
    let promises = build-Promises service_id description loggers history e p g built ready_made in
    let (serve, served, w, slots, at, ran, early, ended, told) =
      mounted_timely library router mounted e l delay routes p ctx broken (3 * g) latest t
        (add latest (seconds 5)) h s s' s'' has before starts
        (All-mono (checks_of p e) (Promises-KeepsContract (3 * g)) promises)
        (All-mono (checks_of p e) (Promises-Leaves ctx (3 * g)) promises)
        (inr (All-mono (checks_of p e) (λ c made. (made.limited, made.soon latest)) promises)) in
    (serve, served, w, slots, at, ran, omega arith, ended, told)
