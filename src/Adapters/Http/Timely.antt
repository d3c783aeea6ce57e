-- ===== src/Adapters/Http/Timely.antt =====
-- adapters/http/handlers.go: the time that an answer takes.
use go_health.Prelude.{
  ℕ, max, ◌+◌, ◌≤◌, ◌<◌, ◌≡◌, ◌⊎◌, String, List, Option, some, map, length, All, true, arith,
}
use go_health.Go.Exec.{returned, fork_join}
use go_health.Go.Context.{Context, is_done}
use go_health.Go.Http.{fresh}
use go_health.Core.Status.{status_fail}
use go_health.Core.Check.{ComponentStatus}
use go_health.Core.Check.Encode.Total.{Encodes}
use go_health.Core.Engine.{Engine, Logger}
use go_health.Core.Engine.History.{Probe, checks_of}
use go_health.Core.Observe.{run_one}
use go_health.Core.Run.Timely.{KeepsContract, TimesOut, KeepsContract-Joined}
use go_health.Core.Run.Verdict.{Observed}
use go_health.Core.Run.Whole.{Leaves}
use go_health.Adapters.Http.{Served}
use go_health.Adapters.Http.Encodable.{handler_answers, handler_total}
use go_health.Adapters.Http.Endpoints.{handler}

-- What a request was told: 503, and some observation fails, or 200, and none does.
abbrev pub Told : Option ℕ → List (List ComponentStatus) → Type 0
Told code slots =
    ((code ≡ some 503) × Observed status_fail slots)
    ⊎ ((code ≡ some 200) × ¬ Observed status_fail slots)

-- With a logger, checks that keep the contract of Run, and values that encode: the handler answers, no
-- later than the grace of the checks after the last goroutine has started, or after a reading by which
-- the caller's context is done, or by which each check has a timeout that is over. The code is 503,
-- and some observation fails, or 200, and none does.
pub handler_timely :
    (p : Probe) (e : Engine) (l : Logger) (delay : ℕ → ℕ) (ctx : Context) (broken : Option String)
    (grace latest t u : ℕ)
    → e.logger ≡ some l
    → t ≤ latest
    → ((i : ℕ) → i < length (checks_of p e) → t + delay i ≤ latest)
    → All (KeepsContract grace) (checks_of p e)
    → All (Leaves Encodes ctx) (checks_of p e)
    → (is_done ctx u ≡ true) ⊎ All (TimesOut latest u) (checks_of p e)
    → (served : Served) × (w : ℕ) × (slots : List (List ComponentStatus)) × (handler p e delay ctx
          (fresh broken)
          t
        ≡ returned served w)
      × (w ≤ max latest u + grace)
      × (fork_join delay (map (run_one ctx) (checks_of p e)) t ≡ returned slots w)
      × Told served.writer.status slots
handler_timely p e l delay ctx broken grace latest t u has before starts honours leaves due =
    let (found, j) =
      KeepsContract-Joined ctx grace latest t u delay (checks_of p e) starts honours due in
    let (served, w, ran, early) =
      handler_total p e l delay ctx broken t (max latest u + grace) found has leaves j in
    let (slots, ended, told) = handler_answers p e delay ctx broken t w served leaves ran in
    (served, w, slots, ran, omega arith, ended, told)
