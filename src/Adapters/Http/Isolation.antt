-- ===== src/Adapters/Http/Isolation.antt =====
-- adapters/http/handlers.go: registrations that do not cover the probe of a handler.
use go_health.Prelude.{
  ◌≡◌, refl, sym, ap, ◌∙◌, String, false, List, [], ◌∷◌, Option, some, Bool-cases, inl, inr,
}
use go_health.Core.Check.{Check}
use go_health.Core.Engine.{Engine, Logger, done, default_logger}
use go_health.Core.Engine.History.{
  Scope, Probe, live, ready, dashboard, covers, chosen, build, last_logger,
}
use go_health.Core.Engine.Cascade.{build-inv}
use go_health.Core.Log.{emit_log}
use go_health.Core.Run.{run_livez, run_readyz, run_healthz}
use go_health.Adapters.Http.{livez_handler, readyz_handler, healthz_handler}
use go_health.Adapters.Http.Endpoints.{handler}

-- The second history has the registrations of the first, in order, and between them others whose
-- scope does not cover the probe.
pub data Extends (p : Probe) : List (Scope × Check) → List (Scope × Check) → Type 0 where
  neither : Extends p [] []
  kept :
      {r : Scope × Check} {history more : List (Scope × Check)}
      → Extends p history more
      → Extends p (r ∷ history) (r ∷ more)
  added :
      {r : Scope × Check} {history more : List (Scope × Check)}
      → covers r.0 p ≡ false
      → Extends p history more
      → Extends p history (r ∷ more)

chosen-extends :
    (p : Probe) {history more : List (Scope × Check)}
    → Extends p history more
    → chosen p history ≡ chosen p more
chosen-extends p neither = refl
chosen-extends p (kept {r} x) = elim (Bool-cases (covers r.0 p)) [
  | inl on ↦ rw on (ap (◌∷◌ r.1) (chosen-extends p x))
  | inr off ↦ rw off (chosen-extends p x)
]
chosen-extends p (added off x) = rw off (chosen-extends p x)

module _ (service_id description : String) (logger : Option Logger) where
  abbrev engine_of : List Check → List Check → List Check → Engine
  engine_of live_checks ready_checks all_checks = record {
    service_id = service_id;
    description = description;
    logger = logger;
    livez = live_checks;
    readyz = ready_checks;
    healthz = all_checks;
  }

  livez_only :
      (l r z r' z' : List Check) → handler live (engine_of l r z) ≡ handler live (engine_of l r' z')
  unfolding livez_handler run_livez emit_log
  livez_only l r z r' z' = refl

  readyz_only :
      (r l z l' z' : List Check)
      → handler ready (engine_of l r z) ≡ handler ready (engine_of l' r z')
  unfolding readyz_handler run_readyz emit_log
  readyz_only r l z l' z' = refl

  healthz_only :
      (z l r l' r' : List Check)
      → handler dashboard (engine_of l r z) ≡ handler dashboard (engine_of l' r' z)
  unfolding healthz_handler run_healthz emit_log
  healthz_only z l r l' r' = refl

  handler_chosen :
      (p : Probe) (h h' : List (Scope × Check))
      → chosen p h ≡ chosen p h'
      → handler p (engine_of (chosen live h) (chosen ready h) (chosen dashboard h))
        ≡ handler p (engine_of (chosen live h') (chosen ready h') (chosen dashboard h'))
  handler_chosen live h h' same =
      ap (λ l. handler live (engine_of l (chosen ready h) (chosen dashboard h))) same
      ∙ livez_only _ _ _ _ _
  handler_chosen ready h h' same =
      ap (λ r. handler ready (engine_of (chosen live h) r (chosen dashboard h))) same
      ∙ readyz_only _ _ _ _ _
  handler_chosen dashboard h h' same =
      ap (λ z. handler dashboard (engine_of (chosen live h) (chosen ready h) z)) same
      ∙ healthz_only _ _ _ _ _

-- Two services with the same id, description and loggers were built, and differ only in registrations
-- whose scope does not cover a probe. Then their handlers for the probe are equal, whatever the
-- added checks do.
pub handler_isolated :
    (p : Probe) (service_id description : String) (loggers : List (Option Logger))
    (history more : List (Scope × Check)) (e e' : Engine)
    → Extends p history more
    → build service_id description loggers history ≡ done e
    → build service_id description loggers more ≡ done e'
    → handler p e ≡ handler p e'
handler_isolated p service_id description loggers history more e e' x built built' =
    ap (handler p) (sym (build-inv service_id description loggers history e built).1)
    ∙ handler_chosen service_id description (last_logger (some default_logger) loggers) p history
        more (chosen-extends p x)
    ∙ ap (handler p) (build-inv service_id description loggers more e' built').1
