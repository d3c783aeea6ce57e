-- ===== src/Core/Log/Levels.antt =====
-- When `emitLog` is silent, what it writes, and when it panics.
use Prim.Native.String
use text.Mathlib.TextEquality.{eq_iff}
use go_health.Prelude.{
  String-cases, inl, inr, ◌∙◌, ℕ, ◌≡◌, ◌≢◌, ◌⊎◌, Bool-cases, ◌==◌, refl, String, List, [], ◌∷◌,
  Option, none, some, arith,
}
use go_health.Go.Exec.{Exec, returned, panicked}
use go_health.Core.Status.{Status, status_warn, status_fail}
use go_health.Core.Engine.{Engine, Logger}
use go_health.Core.Log.{Level, warn, error, LogEntry, nil_dereference, emit, emit_log}

-- The level at which a status is logged: warn and fail only.
abbrev pub LogsAt : Status → Level → Type 0
LogsAt status warn = status ≡ status_warn
LogsAt status error = status ≡ status_fail

abbrev pub suffix : Level → String
suffix warn = " check completed with warnings"
suffix error = " check completed with failures"

abbrev pub entry_at : Logger → Level → String → Status → ℕ → LogEntry
entry_at l level kind status checks_count = record {
  logger = l;
  level = level;
  message = String.◌++◌ kind (suffix level);
  status = status;
  checks_count = checks_count;
}

pub emit_log-silent :
    (e : Engine) (kind : String) (status : Status) (n t : ℕ)
    → status ≢ status_warn
    → status ≢ status_fail
    → emit_log e kind status n t ≡ returned [] t
unfolding emit_log
emit_log-silent e kind status n t not_warn not_fail =
    ground (arith, eq_iff status status_warn, eq_iff status status_fail)

pub emit_log-emit :
    (e : Engine) (kind : String) (status : Status) (n t : ℕ) (level : Level)
    → LogsAt status level
    → emit_log e kind status n t ≡ emit e.logger level (String.◌++◌ kind (suffix level)) status n t
unfolding emit_log
emit_log-emit e kind status n t warn h = rw h
emit_log-emit e kind status n t error h = rw h

pub emit-some :
    {logger : Option Logger} {l : Logger} (level : Level) (message : String) (status : Status)
    (n t : ℕ)
    → logger ≡ some l
    → emit logger level message status n t
      ≡ returned
          (record {
            logger = l;
            level = level;
            message = message;
            status = status;
            checks_count = n;
          }
            ∷ [])
          t
unfolding emit
emit-some level message status n t h = rw h

pub emit-none :
    {logger : Option Logger} (level : Level) (message : String) (status : Status) (n t : ℕ)
    → logger ≡ none
    → emit logger level message status n t ≡ panicked nil_dereference
unfolding emit
emit-none level message status n t h = rw h

-- `emitLog` reads no clock.
pub emit_log-now :
    (e : Engine) (name : String) (status : Status) (n t u : ℕ) (logged : List LogEntry)
    → emit_log e name status n t ≡ returned logged u
    → t ≡ u
unfolding emit_log
emit_log-now e name status n t u logged h = ground arith

-- With a logger, `emitLog` returns.
pub emit_log-some :
    (e : Engine) (kind : String) (status : Status) (n t : ℕ) (l : Logger)
    → e.logger ≡ some l
    → (logged : List LogEntry) × (emit_log e kind status n t ≡ returned logged t)
emit_log-some e kind status n t l has = elim (String-cases status status_warn) [
  | inl w ↦ (_, emit_log-emit e kind status n t warn w ∙ emit-some warn _ status n t has)
  | inr not_warn ↦ elim (String-cases status status_fail) [
    | inl f ↦ (_, emit_log-emit e kind status n t error f ∙ emit-some error _ status n t has)
    | inr not_fail ↦ ([], emit_log-silent e kind status n t not_warn not_fail)
  ]
]

-- A logging call does the same at every reading.
abbrev pub Same : Exec (List LogEntry) → Type 0
Same m =
    ((logged : List LogEntry) × ((t : ℕ) → m t ≡ returned logged t))
    ⊎ ((message : String) × ((t : ℕ) → m t ≡ panicked message))

emit-Same :
    (logger : Option Logger) (level : Level) (message : String) (status : Status) (n : ℕ)
    → Same (emit logger level message status n)
unfolding emit
emit-Same none level message status n = inr (nil_dereference, λ t. refl)
emit-Same (some l) level message status n = inl (_, λ t. refl)

pub emit_log-Same :
    (e : Engine) (kind : String) (status : Status) (n : ℕ) → Same (emit_log e kind status n)
unfolding emit_log
emit_log-Same e kind status n = elim (Bool-cases (status == status_warn)) [
  | inl warns ↦ rw warns (emit-Same e.logger warn _ status n)
  | inr no_warning ↦ rw no_warning (elim (Bool-cases (status == status_fail)) [
    | inl fails ↦ rw fails (emit-Same e.logger error _ status n)
    | inr silent ↦ rw silent (inl ([], λ t. refl))
  ])
]
