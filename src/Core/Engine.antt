-- ===== src/Core/Engine.antt =====
-- core/engine.go and core/options.go: the engine, its options and its registration methods.
pub mod History
pub mod Cascade
pub mod Reordered
use go_health.Prelude.{String, List, [], ◌∷◌, ◌++◌, Option, some, ◌==◌, if◌then◌else◌}
use go_health.Core.Check.{Check}

-- *slog.Logger; a nil pointer is none.
pub record Logger : Type 0 where
  pub handler : String

pub record Engine : Type 0 where
  pub service_id : String
  pub description : String
  pub logger : Option Logger
  pub livez : List Check
  pub readyz : List Check
  pub healthz : List Check

abbrev pub system_time_check_name : String
system_time_check_name = "system:time"

-- What a method that may panic leaves behind.
pub data Attempt {ℓ} (A : Type ℓ) : Type ℓ where
  done : A → Attempt A
  panics : String → Attempt A

-- An option may call any method of the engine, so it may panic.
abbrev pub EngineOption : Type 0
EngineOption = Engine → Attempt Engine

unfoldable pub with_logger : Option Logger → EngineOption
with_logger l e = done (record e { logger = l })

-- slog.Default()
abbrev pub default_logger : Logger
default_logger = record { handler = "default" }

abbrev after {ℓ κ} : {A : Type ℓ} {B : Type κ} → Attempt A → (A → Attempt B) → Attempt B
after (done a) f = f a
after (panics message) f = panics message

unfoldable pub apply_options : Engine → List EngineOption → Attempt Engine
apply_options e [] = done e
apply_options e (opt ∷ opts) = after (opt e) (λ e'. apply_options e' opts)

unfoldable pub new_engine : String → String → List EngineOption → Attempt Engine
new_engine service_id description opts =
    let e : Engine = record {
      service_id = service_id;
      description = description;
      logger = some default_logger;
      livez = [];
      readyz = [];
      healthz = [];
    } in
    apply_options e opts

abbrev pub reserved_message : String
reserved_message = "health/core: check name \"system:time\" is reserved by the framework"

module _ (e : Engine) (c : Check) where
  unfoldable pub register_health_check : Attempt Engine
  register_health_check =
      if c.name == system_time_check_name
      then panics reserved_message
      else done (record e { healthz = e.healthz ++ c ∷ [] })

  unfoldable pub register_readiness_check : Attempt Engine
  register_readiness_check =
      if c.name == system_time_check_name
      then panics reserved_message
      else done (record e { healthz = e.healthz ++ c ∷ []; readyz = e.readyz ++ c ∷ [] })

  unfoldable pub register_liveness_check : Attempt Engine
  register_liveness_check =
      if c.name == system_time_check_name
      then panics reserved_message
      else done (record e {
        healthz = e.healthz ++ c ∷ [];
        readyz = e.readyz ++ c ∷ [];
        livez = e.livez ++ c ∷ [];
      })
