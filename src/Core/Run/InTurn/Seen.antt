-- ===== src/Core/Run/InTurn/Seen.antt =====
-- core/engine.go: what a caller sees of a Run method, and of the loop that runs the checks in turn.
use go_health.Prelude.{ℕ, ◌≡◌, refl, sym, ap, ◌∙◌, inl, inr, String, List, map, All, length}
use go_health.Go.Exec.{Outcome, returned, blocked, panicked, Exec, pure, continue}
use go_health.Go.Context.{Context}
use go_health.Core.Status.{Status}
use go_health.Core.Check.{ComponentStatus, HealthResponse}
use go_health.Core.Engine.{Engine}
use go_health.Core.Engine.History.{Probe, checks_of}
use go_health.Core.Aggregate.{aggregate}
use go_health.Core.Aggregate.Statuses.{map_entries}
use go_health.Core.Log.{LogEntry, emit_log}
use go_health.Core.Log.Levels.{emit_log-Same}
use go_health.Core.Run.{collect, run_checks}
use go_health.Core.Run.Answer.{run, kind, run-after_checks}
use go_health.Core.Run.Erased.{erase}
use go_health.Core.Run.Slots.{initial}
use go_health.Core.Run.Wait.{run_checks_total}
use go_health.Core.Run.InTurn.{
  in_turn, run_in_turn, IsSteady, fork_join_steady, in_turn_steady, collect_erased,
  aggregate_erased,
}

-- What a caller sees of a Run method, but for the stamps and the time that it takes.
abbrev pub seen :
    Outcome (HealthResponse × List LogEntry) → Outcome (HealthResponse × List LogEntry)
seen (returned (response, logged) u) =
    returned (record response { checks = map_entries erase response.checks }, logged) 0
seen blocked = blocked
seen (panicked message) = panicked message

module _ (p : Probe) (e : Engine) (ctx : Context) where
  abbrev pub response_of : Status → List (String × List ComponentStatus) → HealthResponse
  response_of status out = record {
    status = status;
    service_id = e.service_id;
    description = e.description;
    checks = out;
  }

  -- The rest of a Run method, from the status and the map of its checks.
  abbrev pub finish :
      Status → List (String × List ComponentStatus) → Exec (HealthResponse × List LogEntry)
  finish status out v =
      continue (emit_log e (kind p) status (length (checks_of p e)) v)
        (λ logged. pure (response_of status out, logged))

  seen-finish :
      (status : Status) (out out' : List (String × List ComponentStatus)) (v v' : ℕ)
      → map_entries erase out ≡ map_entries erase out'
      → seen (finish status out v) ≡ seen (finish status out' v')
  seen-finish status out out' v v' same =
      elim (emit_log-Same e (kind p) status (length (checks_of p e))) [
        | inl (logged, writes) ↦ rw (writes v, writes v', same) refl
        | inr (message, panics) ↦ rw (panics v, panics v') refl
      ]

  run_in_turn-finish :
      (t u : ℕ) (slots : List (List ComponentStatus))
      → in_turn ctx (checks_of p e) t ≡ returned slots u
      → let out = collect (checks_of p e) slots (initial t) in
        run_in_turn p e ctx t ≡ finish (aggregate out) out u
  unfolding run_in_turn
  run_in_turn-finish t u slots ended = rw ended refl

  pub run-finish :
      (delay : ℕ → ℕ) (t w : ℕ) (out : List (String × List ComponentStatus))
      → run_checks delay ctx (checks_of p e) t ≡ returned out w
      → run p e delay ctx t ≡ finish (aggregate out) out w
  run-finish delay t w out ran = run-after_checks p e delay ctx t w out ran

  -- From slots that are the same but for their stamps.
  seen-collect :
      (slots slots' : List (List ComponentStatus)) (t t' v v' : ℕ)
      → map (map erase) slots ≡ map (map erase) slots'
      → let out = collect (checks_of p e) slots (initial t) in
        let out' = collect (checks_of p e) slots' (initial t') in
        seen (finish (aggregate out) out v) ≡ seen (finish (aggregate out') out' v')
  seen-collect slots slots' t t' v v' same =
      let out = collect (checks_of p e) slots (initial t) in
      let out' = collect (checks_of p e) slots' (initial t') in
      let alike = collect_erased (checks_of p e) slots slots' t t' same in
      seen-finish (aggregate out) out out' v v' alike
      ∙ ap (λ s. seen (finish s out' v')) (aggregate_erased out out' alike)

  -- Where each check of a probe always returns, with the same results, the goroutines make no
  -- difference: whatever the scheduler does, and whenever it is started, the Run method answers, logs
  -- or panics just as a loop that runs the checks one after the other, but for the stamps.
  pub seen-run :
      (delay : ℕ → ℕ) (t t' : ℕ)
      → All (IsSteady ctx) (checks_of p e)
      → seen (run p e delay ctx t) ≡ seen (run_in_turn p e ctx t')
  seen-run delay t t' steady =
      let (slots, u, j, same) = fork_join_steady ctx delay t (checks_of p e) steady in
      let (slots', u', ended, same') = in_turn_steady ctx t' (checks_of p e) steady in
      let (w, ran, _) = run_checks_total delay ctx (checks_of p e) t u slots j in
      ap seen (run-finish delay t w (collect (checks_of p e) slots (initial t)) ran)
      ∙ seen-collect slots slots' t t' w u' (same ∙ sym same')
      ∙ sym (ap seen (run_in_turn-finish t' u' slots' ended))
