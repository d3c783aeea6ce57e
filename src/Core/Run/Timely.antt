-- ===== src/Core/Run/Timely.antt =====
-- How long a Run method takes.
use mathlib.Core.Path.{subst}
use go_health.Prelude.{
  ℕ, suc, max, ◌+◌, ◌≤◌, ◌<◌, ◌≡◌, refl, ◌⊎◌, inl, inr, true, false, ◌||◌, leb, Bool, List, [], ◌∷◌,
  Option, Option-cases, some, none, map, length, All, arith,
}
use go_health.Go.Exec.{Exec, returned}
use go_health.Go.Exec.Join.{shift, Joined}
use go_health.Go.Exec.Prompt.{Anything, Honours}
use go_health.Go.Duration.{ℤ, pos, negsuc, add, is_positive}
use go_health.Go.Context.{Context, is_done}
use go_health.Core.Check.{Result, Check, ComponentStatus, HealthResponse}
use go_health.Core.Engine.{Engine, Logger}
use go_health.Core.Engine.History.{Probe, checks_of}
use go_health.Core.Observe.{run_one, check_context}
use go_health.Core.Observe.Deadline.{check_context-is_done}
use go_health.Core.Observe.Entries.{run_one-TellAll, run_one-no_run}
use go_health.Core.Log.{LogEntry}
use go_health.Core.Run.Answer.{run}
use go_health.Core.Run.Total.{run_total}

-- The contract of Check.Run: it does not panic, and returns no later than `grace` after a reading at
-- which its context is done, or after its own start.
abbrev pub RunHonours : ℕ → Option (Context → Exec (List Result)) → Type 0
RunHonours grace none = Unit
RunHonours grace (some run) = Honours (λ d. Anything) grace run

abbrev pub KeepsContract : ℕ → Check → Type 0
KeepsContract grace c = RunHonours grace c.run

-- The timeout of the check, counted from the reading `latest`, is over at the reading `u`.
abbrev pub TimesOut : ℕ → ℕ → Check → Type 0
TimesOut latest u c = (is_positive c.timeout ≡ true) × (add latest c.timeout ≤ u)

add_mono : (s t : ℕ) (d : ℤ) → is_positive d ≡ true → s ≤ t → add s d ≤ add t d
add_mono s t (pos n) h le = omega arith
add_mono s t (negsuc n) h le = cc

leb-true : (a b : ℕ) → a ≤ b → leb a b ≡ true
leb-true a b h = ground arith

or-right : (b c : Bool) → c ≡ true → (b || c) ≡ true
or-right true c h = refl
or-right false c h = h

pub check_context_due :
    (ctx : Context) (c : Check) (s latest u : ℕ)
    → s ≤ latest
    → (is_done ctx u ≡ true) ⊎ TimesOut latest u c
    → is_done (check_context ctx c s) u ≡ true
check_context_due ctx c s latest u le (inl caller) =
    rw (check_context-is_done ctx c s u, caller) refl
check_context_due ctx c s latest u le (inr (positive, over)) =
    let earlier = add_mono s latest c.timeout positive le in
    rw (check_context-is_done ctx c s u, positive)
      (or-right (is_done ctx u) _ (leb-true (add s c.timeout) u (omega arith)))

run_one_due :
    (ctx : Context) (c : Check) (grace s u : ℕ)
    → KeepsContract grace c
    → is_done (check_context ctx c s) u ≡ true
    → (found : List ComponentStatus) × (v : ℕ) × (run_one ctx c s ≡ returned found v)
      × (v ≤ max s u + grace)
run_one_due ctx c grace s u honours due = elim (Option-cases c.run) [
  | inl missing ↦
      let (cs, ran, _, _) = run_one-no_run ctx c s missing in (cs ∷ [], s, ran, omega arith)
  | inr (run, there) ↦
      let (results, v, ran, early, _) =
        subst (RunHonours grace) there honours (check_context ctx c s) u due s in
      let (found, told, _) = run_one-TellAll ctx c s v run results there ran in
      (found, v, told, early)
]

-- Every check of a list is due by the reading `u`.
abbrev pub AllDue : Context → ℕ → ℕ → List Check → Type 0
AllDue ctx latest u checks = (is_done ctx u ≡ true) ⊎ All (TimesOut latest u) checks

AllDue-tail :
    (ctx : Context) (latest u : ℕ) (c : Check) (checks : List Check)
    → AllDue ctx latest u (c ∷ checks)
    → ((is_done ctx u ≡ true) ⊎ TimesOut latest u c) × AllDue ctx latest u checks
AllDue-tail ctx latest u c checks (inl caller) = (inl caller, inl caller)
AllDue-tail ctx latest u c checks (inr (here, later)) = (inr here, inr later)

pub KeepsContract-Joined :
    (ctx : Context) (grace latest t u : ℕ) (delay : ℕ → ℕ) (checks : List Check)
    → ((i : ℕ) → i < length checks → t + delay i ≤ latest)
    → All (KeepsContract grace) checks
    → AllDue ctx latest u checks
    → (slots : List (List ComponentStatus)) × Joined delay t
        (max latest u + grace)
        (map (run_one ctx) checks)
        slots
KeepsContract-Joined ctx grace latest t u delay [] starts honours due = ([], tt)
KeepsContract-Joined ctx grace latest t u delay (c ∷ checks) starts (here, later) due =
    let (due_here, due_later) = AllDue-tail ctx latest u c checks due in
    let start = starts 0 (omega arith) in
    let (found, v, ran, early) =
      run_one_due ctx c grace (t + delay 0) u here
        (check_context_due ctx c (t + delay 0) latest u start due_here) in
    let (slots, j) =
      KeepsContract-Joined ctx grace latest t u (shift delay) checks
        (λ i below. starts (suc i) (omega arith)) later due_later in
    (found ∷ slots, ((v, ran, omega arith), j))

-- With a logger, and with checks that keep the contract of Run, a Run method whose goroutines have all
-- started by the reading `latest` returns. It does so no later than the grace of the checks after
-- `latest`, or after a reading by which the caller's context is done, or by which each check has a
-- timeout that is over.
pub run_timely :
    (p : Probe) (e : Engine) (l : Logger) (delay : ℕ → ℕ) (ctx : Context) (grace latest t u : ℕ)
    → e.logger ≡ some l
    → t ≤ latest
    → ((i : ℕ) → i < length (checks_of p e) → t + delay i ≤ latest)
    → All (KeepsContract grace) (checks_of p e)
    → (is_done ctx u ≡ true) ⊎ All (TimesOut latest u) (checks_of p e)
    → (response : HealthResponse) × (logged : List LogEntry) × (w : ℕ) × (run p e delay ctx t
        ≡ returned (response, logged) w)
      × (w ≤ max latest u + grace)
run_timely p e l delay ctx grace latest t u has before starts honours due =
    let (slots, j) =
      KeepsContract-Joined ctx grace latest t u delay (checks_of p e) starts honours due in
    let (response, logged, w, ran, _, early) =
      run_total p e l delay ctx t (max latest u + grace) slots has j in
    (response, logged, w, ran, omega arith)
