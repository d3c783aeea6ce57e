-- ===== src/Core/Engine/Cascade.antt =====
-- The strict cascade of the three sets of checks.
use mathlib.Core.List.{Sublistᴰ}
use mathlib.Core.Path.{subst}
use go_health.Prelude.{
  ◌≡◌, refl, sym, ◌∙◌, ◌≢◌, ◌⊎◌, inl, inr, String, String-cases, Bool-cases, List, [], ◌∷◌, Option,
  All, Any, some, ap,
}
use go_health.Core.Check.{Check}
use go_health.Core.Engine.{Logger, Engine, system_time_check_name, done, default_logger}
use go_health.Core.Engine.History.{
  Scope, health, readiness, liveness, Probe, live, ready, dashboard, checks_of, covers, chosen,
  build, IsFree, IsReserved, last_logger, build-done, build-panics,
}

IsFree-or_IsReserved :
    (history : List (Scope × Check)) → All IsFree history ⊎ Any IsReserved history
IsFree-or_IsReserved [] = inl tt
IsFree-or_IsReserved ((scope, c) ∷ history) = elim (String-cases c.name system_time_check_name) [
  | inl taken ↦ inr (inl taken)
  | inr free ↦ elim (IsFree-or_IsReserved history) [
    | inl all ↦ inl (free, all)
    | inr more ↦ inr (inr more)
  ]
]

chosen-live-ready :
    (history : List (Scope × Check)) → Sublistᴰ (chosen live history) (chosen ready history)
chosen-live-ready [] = Sublistᴰ.slnil
chosen-live-ready ((health, c) ∷ history) = chosen-live-ready history
chosen-live-ready ((readiness, c) ∷ history) = Sublistᴰ.cons (chosen-live-ready history)
chosen-live-ready ((liveness, c) ∷ history) = Sublistᴰ.cons-cons refl (chosen-live-ready history)

chosen-ready-dashboard :
    (history : List (Scope × Check)) → Sublistᴰ (chosen ready history) (chosen dashboard history)
chosen-ready-dashboard [] = Sublistᴰ.slnil
chosen-ready-dashboard ((health, c) ∷ history) = Sublistᴰ.cons (chosen-ready-dashboard history)
chosen-ready-dashboard ((readiness, c) ∷ history) =
    Sublistᴰ.cons-cons refl (chosen-ready-dashboard history)
chosen-ready-dashboard ((liveness, c) ∷ history) =
    Sublistᴰ.cons-cons refl (chosen-ready-dashboard history)

abbrev pub IsNamedFreely : Check → Type 0
IsNamedFreely c = c.name ≢ system_time_check_name

-- What holds of every check of the history holds of those that a probe runs.
pub chosen-All :
    (P : Check → Type 0) (p : Probe) (history : List (Scope × Check))
    → All (λ r. P r.1) history
    → All P (chosen p history)
chosen-All P p [] _ = tt
chosen-All P p ((scope, c) ∷ history) (here, later) = elim (Bool-cases (covers scope p)) [
  | inl covered ↦ rw covered (here, chosen-All P p history later)
  | inr other ↦ rw other (chosen-All P p history later)
]

-- The invariant of an engine.
pub record IsWellFormed (e : Engine) : Type 0 where
  pub live_ready : Sublistᴰ e.livez e.readyz
  pub ready_dashboard : Sublistᴰ e.readyz e.healthz
  pub free : (p : Probe) → All IsNamedFreely (checks_of p e)

done-injective : {e f : Engine} → done e ≡ done f → e ≡ f
done-injective h = cc

-- An engine that was built holds what the history chose, and no reserved name was registered.
pub build-inv :
    (service_id description : String) (loggers : List (Option Logger))
    (history : List (Scope × Check)) (e : Engine)
    → build service_id description loggers history ≡ done e
    → All IsFree history
      × (record {
        service_id = service_id;
        description = description;
        logger = last_logger (some default_logger) loggers;
        livez = chosen live history;
        readyz = chosen ready history;
        healthz = chosen dashboard history;
      }
          ≡ e)
build-inv service_id description loggers history e built = elim (IsFree-or_IsReserved history) [
  | inr taken ↦ cc (build-panics service_id description loggers history taken)
  | inl free ↦
      (free, done-injective (sym (build-done service_id description loggers history free) ∙ built))
]

pub build-checks_of :
    (p : Probe) (service_id description : String) (loggers : List (Option Logger))
    (history : List (Scope × Check)) (e : Engine)
    → build service_id description loggers history ≡ done e
    → chosen p history ≡ checks_of p e
build-checks_of live service_id description loggers history e built =
    ap (λ (x : Engine). x.livez) (build-inv service_id description loggers history e built).1
build-checks_of ready service_id description loggers history e built =
    ap (λ (x : Engine). x.readyz) (build-inv service_id description loggers history e built).1
build-checks_of dashboard service_id description loggers history e built =
    ap (λ (x : Engine). x.healthz) (build-inv service_id description loggers history e built).1

-- However an engine was built, what runs on the liveness probe runs on the readiness probe, what runs
-- there runs on the dashboard, in the order of registration, and no check has the reserved name.
pub build-IsWellFormed :
    (service_id description : String) (loggers : List (Option Logger))
    (history : List (Scope × Check)) (e : Engine)
    → build service_id description loggers history ≡ done e
    → IsWellFormed e
build-IsWellFormed service_id description loggers history e built =
    let (free, whole) = build-inv service_id description loggers history e built in
    subst IsWellFormed whole (record {
      live_ready = chosen-live-ready history;
      ready_dashboard = chosen-ready-dashboard history;
      free = elim [
        | live ↦ chosen-All IsNamedFreely live history free
        | ready ↦ chosen-All IsNamedFreely ready history free
        | dashboard ↦ chosen-All IsNamedFreely dashboard history free
      ];
    })
