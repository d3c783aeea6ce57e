-- ===== src/Core/Engine/History.antt =====
-- The engine against an abstract account of it: the list of the registrations that were made.
use mathlib.Core.List.{append_assoc, append-nil}
use text.Mathlib.TextEquality.{eq_iff}
use go_health.Prelude.{
  ◌≡◌, refl, ap, ◌∙◌, ◌≢◌, ◌↔◌, String, String-cases, inl, inr, Bool, true, false, List, [], ◌∷◌,
  ◌++◌, Option, some, map, All, Any, arith, if◌then◌else◌,
}
use go_health.Core.Check.{Check}
use go_health.Core.Engine.{
  Logger, Engine, system_time_check_name, Attempt, done, panics, after, default_logger, with_logger,
  apply_options, new_engine, reserved_message, register_health_check, register_readiness_check,
  register_liveness_check,
}

pub data Scope : Type 0 where
  health readiness liveness : Scope

pub data Probe : Type 0 where
  live ready dashboard : Probe

-- The checks that a probe runs.
abbrev pub checks_of : Probe → Engine → List Check
checks_of live e = e.livez
checks_of ready e = e.readyz
checks_of dashboard e = e.healthz

-- Whether a check of the scope is to run on the probe.
abbrev pub covers : Scope → Probe → Bool
covers liveness _ = true
covers readiness live = false
covers readiness _ = true
covers health dashboard = true
covers health _ = false

abbrev pub register : Scope → Engine → Check → Attempt Engine
register health = register_health_check
register readiness = register_readiness_check
register liveness = register_liveness_check

unfoldable pub register_all : Engine → List (Scope × Check) → Attempt Engine
register_all e [] = done e
register_all e ((scope, c) ∷ history) = after (register scope e c) (λ e'. register_all e' history)

-- A service's start: an engine with loggers set by options, then registrations.
unfoldable pub build :
    String → String → List (Option Logger) → List (Scope × Check) → Attempt Engine
build service_id description loggers history =
    after (new_engine service_id description (map with_logger loggers))
      (λ e. register_all e history)

-- The abstract engine: the checks of the history that the probe covers, in the order of registration.
abbrev pub chosen : Probe → List (Scope × Check) → List Check
chosen p [] = []
chosen p ((scope, c) ∷ history) = if covers scope p then c ∷ chosen p history else chosen p history

-- The last logger that an option set.
abbrev pub last_logger : Option Logger → List (Option Logger) → Option Logger
last_logger l [] = l
last_logger _ (l ∷ loggers) = last_logger l loggers

abbrev pub IsFree : Scope × Check → Type 0
IsFree r = r.1.name ≢ system_time_check_name

abbrev pub IsReserved : Scope × Check → Type 0
IsReserved r = r.1.name ≡ system_time_check_name

-- The engine with one check more on each probe that the scope covers.
abbrev pub added : Scope → Engine → Check → Engine
added scope e c = record e {
  livez = if covers scope live then e.livez ++ c ∷ [] else e.livez;
  readyz = if covers scope ready then e.readyz ++ c ∷ [] else e.readyz;
  healthz = if covers scope dashboard then e.healthz ++ c ∷ [] else e.healthz;
}

-- Each of the three methods panics exactly on the reserved name, and otherwise returns an engine in
-- which each probe that the scope covers has one check more, the others and the rest being as before.
pub register_cases :
    (scope : Scope) (e : Engine) (c : Check)
    → ((register scope e c ≡ panics reserved_message) ↔ (c.name ≡ system_time_check_name))
      × ((c.name ≢ system_time_check_name) ↔ (register scope e c ≡ done (added scope e c)))
unfolding register_health_check register_readiness_check register_liveness_check
register_cases health e c = ground (arith, eq_iff c.name system_time_check_name)
register_cases readiness e c = ground (arith, eq_iff c.name system_time_check_name)
register_cases liveness e c = ground (arith, eq_iff c.name system_time_check_name)

-- The engine with the chosen checks of a history behind its own.
abbrev extended : Engine → List (Scope × Check) → Engine
extended e history = record e {
  livez = e.livez ++ chosen live history;
  readyz = e.readyz ++ chosen ready history;
  healthz = e.healthz ++ chosen dashboard history;
}

extended-nil : (e : Engine) → e ≡ extended e []
extended-nil e = simp append-nil

extended-cons :
    (e : Engine) (scope : Scope) (c : Check) (history : List (Scope × Check))
    → extended (added scope e c) history ≡ extended e ((scope, c) ∷ history)
extended-cons e health c history = simp append_assoc
extended-cons e readiness c history = simp append_assoc
extended-cons e liveness c history = simp append_assoc

register_all-done :
    (e : Engine) (history : List (Scope × Check))
    → All IsFree history
    → register_all e history ≡ done (extended e history)
unfolding register_all
register_all-done e [] _ = ap done (extended-nil e)
register_all-done e ((scope, c) ∷ history) (free, later) =
    rw ((register_cases scope e c).1.0 free) (
      register_all-done (added scope e c) history later ∙ ap done (extended-cons e scope c history))

register_all-panics :
    (e : Engine) (history : List (Scope × Check))
    → Any IsReserved history
    → register_all e history ≡ panics reserved_message
unfolding register_all
register_all-panics e ((scope, c) ∷ history) h = elim (String-cases c.name system_time_check_name) [
  | inl taken ↦ rw ((register_cases scope e c).0.1 taken)
  | inr free ↦ elim h [
    | inl taken ↦ absurd (free taken)
    | inr later ↦
        rw ((register_cases scope e c).1.0 free)
          (register_all-panics (added scope e c) history later)
  ]
]
register_all-panics e [] h = absurd h

apply_options-with_logger :
    (e : Engine) (loggers : List (Option Logger))
    → apply_options e (map with_logger loggers)
      ≡ done (record e { logger = last_logger e.logger loggers })
unfolding apply_options with_logger
apply_options-with_logger e [] = refl
apply_options-with_logger e (l ∷ loggers) =
    apply_options-with_logger (record e { logger = l }) loggers

-- When no name is reserved, the engine that is built holds for each probe exactly the checks of the
-- history that the probe covers, in the order of registration, with the identity that it was given
-- and the logger that was set last.
pub build-done :
    (service_id description : String) (loggers : List (Option Logger))
    (history : List (Scope × Check))
    → All IsFree history
    → build service_id description loggers history
      ≡ done (record {
        service_id = service_id;
        description = description;
        logger = last_logger (some default_logger) loggers;
        livez = chosen live history;
        readyz = chosen ready history;
        healthz = chosen dashboard history;
      })
unfolding build new_engine
build-done service_id description loggers history free =
    rw (apply_options-with_logger _ loggers) (register_all-done _ history free)

-- One reserved name anywhere in the history, and the start panics.
pub build-panics :
    (service_id description : String) (loggers : List (Option Logger))
    (history : List (Scope × Check))
    → Any IsReserved history
    → build service_id description loggers history ≡ panics reserved_message
unfolding build new_engine
build-panics service_id description loggers history taken =
    rw (apply_options-with_logger _ loggers) (register_all-panics _ history taken)
