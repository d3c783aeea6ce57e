-- ===== src/Core/Run/Whole.antt =====
-- What holds of every entry of the response, because it holds of every observation.
use go_health.Prelude.{
  ℕ, ◌+◌, ◌≡◌, sym, inl, inr, String, List, [], ◌∷◌, map, All, All-append, Bool-cases, ◌==◌,
}
use mathlib.Core.Path.{subst}
use go_health.Go.Exec.{returned}
use go_health.Go.Exec.Join.{shift, Joined, fork_join-Joined}
use go_health.Go.Context.{Context}
use go_health.Go.Table.{lookup, assign}
use go_health.Go.Time.{rfc3339_nano}
use go_health.Core.Check.{Check, ComponentStatus}
use go_health.Core.Observe.{run_one}
use go_health.Core.Run.{existing, collect_one, collect, run_checks, system_time_entry}
use go_health.Core.Run.Slots.{initial, run_checks-Ran}

module _ (P : ComponentStatus → Type 0) where
  abbrev pub Throughout : List (String × List ComponentStatus) → Type 0
  Throughout out = All (λ e. All P e.1) out

  -- Each run of the check that returns leaves entries with the property.
  abbrev pub Leaves : Context → Check → Type 0
  Leaves ctx c =
      (t u : ℕ) (found : List ComponentStatus) → run_one ctx c t ≡ returned found u → All P found

  lookup-All :
      (k : String) (out : List (String × List ComponentStatus))
      → Throughout out
      → All P (existing (lookup k out))
  unfolding lookup
  lookup-All k [] h = tt
  lookup-All k ((j, v) ∷ out) (here, later) = elim (Bool-cases (j == k)) [
    | inl same ↦ rw same here
    | inr other ↦ rw other (lookup-All k out later)
  ]

  assign-Throughout :
      (k : String) (list : List ComponentStatus) (out : List (String × List ComponentStatus))
      → All P list
      → Throughout out
      → Throughout (assign k list out)
  unfolding assign
  assign-Throughout k list [] h _ = (h, tt)
  assign-Throughout k list ((j, v) ∷ out) h (here, later) = elim (Bool-cases (j == k)) [
    | inl same ↦ rw same (h, later)
    | inr other ↦ rw other (here, assign-Throughout k list out h later)
  ]

  collect_one-Throughout :
      (c : Check) (found : List ComponentStatus) (out : List (String × List ComponentStatus))
      → All P found
      → Throughout out
      → Throughout (collect_one c found out)
  unfolding collect_one
  collect_one-Throughout c [] out _ h = h
  collect_one-Throughout c (r ∷ rs) out found h =
      assign-Throughout c.name _ out (All-append P _ (r ∷ rs) (lookup-All c.name out h) found) h

  collect-Throughout :
      (ctx : Context) (delay : ℕ → ℕ) (t u : ℕ) (checks : List Check)
      (slots : List (List ComponentStatus)) (out : List (String × List ComponentStatus))
      → Joined delay t u (map (run_one ctx) checks) slots
      → All (Leaves ctx) checks
      → Throughout out
      → Throughout (collect checks slots out)
  unfolding collect
  collect-Throughout ctx delay t u [] slots out j leaves h = h
  collect-Throughout ctx delay t u (c ∷ checks) [] out j leaves h = absurd j
  collect-Throughout ctx delay t u (c ∷ checks) (found ∷ slots) out ((v, ran, _), j) (leaves, later)
        h =
      collect-Throughout ctx (shift delay) t u checks slots (collect_one c found out) j later
        (collect_one-Throughout c found out (leaves (t + delay 0) v found ran) h)

  -- A property of the heartbeat, and of every entry that a check of the run may leave, holds of every
  -- entry of the map that `runChecks` returns.
  pub run_checks-Throughout :
      (delay : ℕ → ℕ) (ctx : Context) (checks : List Check) (t u : ℕ)
      (out : List (String × List ComponentStatus))
      → P (system_time_entry (rfc3339_nano t))
      → All (Leaves ctx) checks
      → run_checks delay ctx checks t ≡ returned out u
      → Throughout out
  run_checks-Throughout delay ctx checks t u out heartbeat leaves h =
      let r = run_checks-Ran delay ctx checks t u out h in
      subst Throughout (sym r.collected) (
        collect-Throughout ctx delay t u checks r.slots (initial t)
          (fork_join-Joined delay (map (run_one ctx) checks) t u r.slots r.ended) leaves
          ((heartbeat, tt), tt))
