-- ===== src/Core/Run/Failing.antt =====
-- A check that fails takes down every probe that covers it.
use mathlib.Core.Path.{subst}
use mathlib.Core.List.{Sublistᴰ}
use go_health.Prelude.{ℕ, ◌+◌, ◌≡◌, inl, inr, Bool, true, false, List, [], ◌∷◌, map, Any, none}
use go_health.Go.Exec.{returned}
use go_health.Go.Exec.Join.{shift, Joined, fork_join-Joined}
use go_health.Go.Context.{Context}
use go_health.Core.Status.{status_fail}
use go_health.Core.Check.{Check, ComponentStatus, HealthResponse}
use go_health.Core.Engine.{Engine}
use go_health.Core.Engine.History.{Probe, live, ready, dashboard, checks_of}
use go_health.Core.Engine.Cascade.{IsWellFormed}
use go_health.Core.Observe.{run_one}
use go_health.Core.Observe.Entries.{run_one-no_run}
use go_health.Core.Aggregate.Strict.{Has}
use go_health.Core.Log.{LogEntry}
use go_health.Core.Run.Answer.{run}
use go_health.Core.Run.Verdict.{Observed, run_verdict}

Any-sublist : {A : Type 0} (P : A → Type 0) {xs ys : List A} → Sublistᴰ xs ys → Any P xs → Any P ys
Any-sublist P Sublistᴰ.slnil h = h
Any-sublist P (Sublistᴰ.cons d) h = inr (Any-sublist P d h)
Any-sublist P (Sublistᴰ.cons-cons e d) (inl h) = inl (subst P e h)
Any-sublist P (Sublistᴰ.cons-cons e d) (inr h) = inr (Any-sublist P d h)

-- The liveness probe is part of the readiness probe, and that of the dashboard.
abbrev pub within : Probe → Probe → Bool
within live _ = true
within ready live = false
within ready _ = true
within dashboard dashboard = true
within dashboard _ = false

within-Any :
    (P : Check → Type 0) (q p : Probe) (e : Engine)
    → IsWellFormed e
    → within q p ≡ true
    → Any P (checks_of q e)
    → Any P (checks_of p e)
within-Any P live live e w h m = m
within-Any P live ready e w h m = Any-sublist P w.live_ready m
within-Any P live dashboard e w h m = Any-sublist P w.ready_dashboard (Any-sublist P w.live_ready m)
within-Any P ready ready e w h m = m
within-Any P ready dashboard e w h m = Any-sublist P w.ready_dashboard m
within-Any P dashboard dashboard e w h m = m
within-Any P ready live e w h m = cc
within-Any P dashboard live e w h m = cc
within-Any P dashboard ready e w h m = cc

module _ (ctx : Context) (c : Check)
    (down : (t u : ℕ) (found : List ComponentStatus)
      → run_one ctx c t ≡ returned found u
      → Has status_fail found) where
  pub member-Observed :
      (delay : ℕ → ℕ) (t u : ℕ) (checks : List Check) (slots : List (List ComponentStatus))
      → Joined delay t u (map (run_one ctx) checks) slots
      → Any (λ d. d ≡ c) checks
      → Observed status_fail slots
  member-Observed delay t u (d ∷ checks) (found ∷ slots) ((v, ran, _), j) (inl same) =
      inl (down (t + delay 0) v found (rw same at ran))
  member-Observed delay t u (d ∷ checks) (found ∷ slots) (_, j) (inr later) =
      inr (member-Observed (shift delay) t u checks slots j later)
  member-Observed delay t u [] slots j m = absurd m
  member-Observed delay t u (d ∷ checks) [] j m = absurd j

  -- In a well-formed engine, when a check that stands on one probe fails each time it is run under the
  -- context, every response of that probe and of the probes above it has the status fail.
  pub run_fails :
      (q p : Probe) (e : Engine) (delay : ℕ → ℕ) (t u : ℕ) (response : HealthResponse)
      (logged : List LogEntry)
      → IsWellFormed e
      → within q p ≡ true
      → Any (λ d. d ≡ c) (checks_of q e)
      → run p e delay ctx t ≡ returned (response, logged) u
      → response.status ≡ status_fail
  run_fails q p e delay t u response logged w covered member ran =
      let (slots, ended, (_, failed), _, _) = run_verdict p e delay ctx t u response logged ran in
      failed (
        member-Observed delay t u (checks_of p e) slots (fork_join-Joined delay _ t u slots ended)
          (within-Any _ q p e w covered member))

-- In a well-formed engine, a check without a Run function on one probe makes every response of that
-- probe and of the probes above it fail.
pub no_run-fails :
    (ctx : Context) (c : Check) (q p : Probe) (e : Engine) (delay : ℕ → ℕ) (t u : ℕ)
    (response : HealthResponse) (logged : List LogEntry)
    → c.run ≡ none
    → IsWellFormed e
    → within q p ≡ true
    → Any (λ d. d ≡ c) (checks_of q e)
    → run p e delay ctx t ≡ returned (response, logged) u
    → response.status ≡ status_fail
no_run-fails ctx c q p e delay t u response logged no_run w covered member ran =
    run_fails ctx c
      (λ s v found h.
        let (cs, done, fails, _) = run_one-no_run ctx c s no_run in
        let same : found ≡ cs ∷ [] = cc in rw same (inl fails))
      q p e delay t u response logged w covered member ran
