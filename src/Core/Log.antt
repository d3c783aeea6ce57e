-- ===== src/Core/Log.antt =====
-- core/engine.go: `emitLog`. The logger of an engine may be a nil pointer.
pub mod Levels
use Prim.Native.String
use go_health.Prelude.{ℕ, String, List, [], ◌∷◌, Option, none, some, ◌==◌, if◌then◌else◌}
use go_health.Go.Exec.{Exec, pure, panic}
use go_health.Core.Status.{Status, status_warn, status_fail}
use go_health.Core.Engine.{Engine, Logger}

pub data Level : Type 0 where
  warn error : Level

pub record LogEntry : Type 0 where
  pub logger : Logger
  pub level : Level
  pub message : String
  pub status : Status
  pub checks_count : ℕ

-- A method of a nil *slog.Logger dereferences it.
abbrev pub nil_dereference : String
nil_dereference = "invalid memory address or nil pointer dereference"

pub emit : Option Logger → Level → String → Status → ℕ → Exec (List LogEntry)
emit none level message status checks_count = panic nil_dereference
emit (some l) level message status checks_count = pure (
    record {
      logger = l;
      level = level;
      message = message;
      status = status;
      checks_count = checks_count;
    }
    ∷ [])

unfoldable pub emit_log : Engine → String → Status → ℕ → Exec (List LogEntry)
unfolding emit
emit_log e kind status checks_count =
    if status == status_warn
    then emit e.logger warn (String.◌++◌ kind " check completed with warnings") status checks_count
    else if status == status_fail
    then emit e.logger error (String.◌++◌ kind " check completed with failures") status checks_count
    else pure []
