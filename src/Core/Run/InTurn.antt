-- ===== src/Core/Run/InTurn.antt =====
-- core/engine.go: the Run methods against a loop that runs the checks one after the other.
pub mod Seen
use go_health.Prelude.{
  ℕ, max, ◌+◌, ◌≡◌, refl, sym, ap, ap₂, ◌∙◌, inl, inr, String, List, [], ◌∷◌, map, All, length,
  arith,
}
use go_health.Go.Exec.{Outcome, returned, blocked, panicked, Exec, pure, continue, ◌>>=◌}
use go_health.Go.Exec.Join.{shift, Joined, Joined-mono}
use go_health.Go.Context.{Context}
use go_health.Go.Time.{rfc3339_nano}
use go_health.Core.Status.{Status}
use go_health.Core.Check.{Result, Check, ComponentStatus, HealthResponse}
use go_health.Core.Engine.{Engine}
use go_health.Core.Engine.History.{Probe, checks_of}
use go_health.Core.Aggregate.{aggregate}
use go_health.Core.Aggregate.Statuses.{map_entries, aggregate-map_entries}
use go_health.Core.Log.{LogEntry, emit_log}
use go_health.Core.Log.Levels.{emit_log-Same}
use go_health.Core.Observe.{invoke, observe, check_context, run_one}
use go_health.Core.Run.{collect, run_checks, system_time_entry}
use go_health.Core.Run.Answer.{run, kind, assembled, run-after_checks}
use go_health.Core.Run.Erased.{erase, map-erase-observe, collect-map_entries}
use go_health.Core.Run.Slots.{initial}
use go_health.Core.Run.Wait.{run_checks_total}

-- Each check is run when the one before it has returned.
pub in_turn : Context → List Check → Exec (List (List ComponentStatus))
in_turn ctx [] = pure []
in_turn ctx (c ∷ checks) = do
  found ← run_one ctx c
  slots ← in_turn ctx checks
  pure (found ∷ slots)

-- A Run method over that loop.
pub run_in_turn : Probe → Engine → Context → Exec (HealthResponse × List LogEntry)
unfolding in_turn
run_in_turn p e ctx t = continue (in_turn ctx (checks_of p e) t) (λ slots. do
  let out = collect (checks_of p e) slots (initial t)
  logged ← emit_log e (kind p) (aggregate out) (length (checks_of p e))
  pure (assembled e (λ i. 0) ctx (kind p) (checks_of p e) out, logged))

-- Whenever the check is run under the context, it returns, with the same results.
abbrev pub IsSteady : Context → Check → Type 0
IsSteady ctx c =
    (results : List Result) × ((t : ℕ)
      → (u : ℕ) × (invoke c.run (check_context ctx c t) t ≡ returned results u))

module _ (ctx : Context) where
  -- What the checks observe, without the stamps.
  abbrev pub settled :
      (checks : List Check) → All (IsSteady ctx) checks → List (List ComponentStatus)
  settled [] steady = []
  settled (c ∷ checks) ((results, _), later) = map (observe c "") results ∷ settled checks later

  pub run_one_steady :
      (c : Check) (t : ℕ) (steady : IsSteady ctx c)
      → (found : List ComponentStatus) × (u : ℕ) × (run_one ctx c t ≡ returned found u)
        × (map erase found ≡ map (observe c "") steady.0)
  unfolding run_one
  run_one_steady c t (results, runs) =
      let (u, ran) = runs t in
      (
        map (observe c (rfc3339_nano u)) results,
        u,
        rw ran refl,
        map-erase-observe c (rfc3339_nano u) results,
      )

  -- Whatever the goroutines were started at, their slots say the same.
  pub Joined-settled :
      (delay : ℕ → ℕ) (t u : ℕ) (checks : List Check) (slots : List (List ComponentStatus))
      (steady : All (IsSteady ctx) checks)
      → Joined delay t u (map (run_one ctx) checks) slots
      → map (map erase) slots ≡ settled checks steady
  Joined-settled delay t u [] [] steady j = refl
  Joined-settled delay t u (c ∷ checks) (found ∷ slots) (here, later) ((v, ran, _), j) =
      let (found', v', ran', same) = run_one_steady c (t + delay 0) here in
      let one : found ≡ found' = cc in
      ap₂ (λ f rest. f ∷ rest) (ap (map erase) one ∙ same)
        (Joined-settled (shift delay) t u checks slots later j)
  Joined-settled delay t u [] (found ∷ slots) steady j = absurd j
  Joined-settled delay t u (c ∷ checks) [] steady j = absurd j

  pub fork_join_steady :
      (delay : ℕ → ℕ) (t : ℕ) (checks : List Check) (steady : All (IsSteady ctx) checks)
      → (slots : List (List ComponentStatus)) × (u : ℕ) × Joined delay t u
          (map (run_one ctx) checks)
          slots
        × (map (map erase) slots ≡ settled checks steady)
  fork_join_steady delay t [] steady = ([], t, tt, refl)
  fork_join_steady delay t (c ∷ checks) (here, later) =
      let (found, v, ran, same) = run_one_steady c (t + delay 0) here in
      let (slots, u, j, same_later) = fork_join_steady (shift delay) t checks later in
      (
        found ∷ slots,
        max v u,
        (
          (v, ran, omega arith),
          Joined-mono (shift delay) t (map (run_one ctx) checks) slots (omega arith) j,
        ),
        rw (same, same_later) refl,
      )

  pub in_turn_steady :
      (t : ℕ) (checks : List Check) (steady : All (IsSteady ctx) checks)
      → (slots : List (List ComponentStatus)) × (u : ℕ) × (in_turn ctx checks t ≡ returned slots u)
        × (map (map erase) slots ≡ settled checks steady)
  unfolding in_turn
  in_turn_steady t [] steady = ([], t, refl, refl)
  in_turn_steady t (c ∷ checks) (here, later) =
      let (found, v, ran, same) = run_one_steady c t here in
      let (slots, u, rest, same_later) = in_turn_steady v checks later in
      (found ∷ slots, u, rw (ran, rest) refl, rw (same, same_later) refl)

pub initial_erased : (t t' : ℕ) → map_entries erase (initial t) ≡ map_entries erase (initial t')
unfolding system_time_entry
initial_erased t t' = refl

-- From slots that are the same but for their stamps.
pub collect_erased :
    (checks : List Check) (slots slots' : List (List ComponentStatus)) (t t' : ℕ)
    → map (map erase) slots ≡ map (map erase) slots'
    → map_entries erase (collect checks slots (initial t))
      ≡ map_entries erase (collect checks slots' (initial t'))
collect_erased checks slots slots' t t' same =
    sym (collect-map_entries erase checks slots (initial t))
    ∙ ap₂ (collect checks) same (initial_erased t t')
    ∙ collect-map_entries erase checks slots' (initial t')

pub aggregate_erased :
    (out out' : List (String × List ComponentStatus))
    → map_entries erase out ≡ map_entries erase out'
    → aggregate out ≡ aggregate out'
aggregate_erased out out' same =
    sym (aggregate-map_entries erase (λ cs. refl) out)
    ∙ ap aggregate same
    ∙ aggregate-map_entries erase (λ cs. refl) out'
