-- ===== src/Adapters/Http.antt =====
-- adapters/http/handlers.go: the three handlers over the engine.
pub mod Reply
pub mod Endpoints
pub mod Sent
pub mod Encodable
pub mod Isolation
pub mod Timely
pub mod Body
pub mod Steady
use go_health.Prelude.{ℕ, String, List, [], ◌∷◌, Option, none, some}
use go_health.Go.Exec.{Exec, pure, panic, ◌>>=◌}
use go_health.Go.Context.{Context}
use go_health.Go.Json.{Json, Encoded, encoded, failed, panicked}
use go_health.Go.Http.{ResponseWriter, document, set_header, write_header, write_body, http_error}
use go_health.Core.Status.{http_status_code}
use go_health.Core.Check.{HealthResponse}
use go_health.Core.Check.Encode.{encode}
use go_health.Core.Engine.{Engine}
use go_health.Core.Log.{LogEntry}
use go_health.Core.Run.{run_livez, run_readyz, run_healthz}

abbrev pub content_type : String
content_type = "application/health+json"

-- What a request leaves behind: the response, the entries of the engine's logger, and the errors
-- that slog.Default() was warned of.
pub record Served : Type 0 where
  pub writer : ResponseWriter
  pub logged : List LogEntry
  pub warnings : List String

-- The handlers look at nothing of the request but its context.
abbrev pub Handler : Type 0
Handler = Context → ResponseWriter → Exec Served

abbrev warned : Option String → List String
warned none = []
warned (some err) = err ∷ []

abbrev finish : List LogEntry → ResponseWriter × Option String → Served
finish logged (w, err) = record { writer = w; logged = logged; warnings = warned err }

-- The rest of `write`, once the encoder is through.
write_encoded : Encoded Json → HealthResponse → List LogEntry → ResponseWriter → Exec Served
write_encoded (failed err) response logged w = pure (record {
  writer = http_error "failed to encode health response" 500 w;
  logged = logged;
  warnings = [];
})
write_encoded (panicked message) response logged w = panic message
write_encoded (encoded doc) response logged w =
    let typed = set_header "Content-Type" content_type w in
    let headed = write_header (http_status_code response.status) typed in
    pure (finish logged (write_body (document doc) headed))

unfoldable pub write : HealthResponse → List LogEntry → ResponseWriter → Exec Served
unfolding write_encoded
write response logged w = write_encoded (encode response) response logged w

module _ (e : Engine) (delay : ℕ → ℕ) where
  unfoldable pub livez_handler : Handler
  livez_handler ctx w = do (response, logged) ← run_livez e delay ctx; write response logged w

  unfoldable pub readyz_handler : Handler
  readyz_handler ctx w = do (response, logged) ← run_readyz e delay ctx; write response logged w

  unfoldable pub healthz_handler : Handler
  healthz_handler ctx w = do (response, logged) ← run_healthz e delay ctx; write response logged w
