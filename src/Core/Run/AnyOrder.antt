-- ===== src/Core/Run/AnyOrder.antt =====
-- core/engine.go: services that made the same registrations, in different orders.
use mathlib.Core.List.{Permᴰ}
use mathlib.Core.List.Permᴰ as Perms
use mathlib.Core.Path.{subst, subst₂}
use mathlib.Core.Quot
use go_health.Prelude.{
  length-perm, All-perm, All-mono, ℕ, ◌≡◌, refl, sym, ap, ap₂, ◌∙◌, inl, inr, String, List, ◌++◌,
  Option, map, All, length,
}
use go_health.Go.Exec.{returned}
use go_health.Go.Table.{IsFresh}
use go_health.Go.Context.{Context}
use go_health.Core.Status.{Status}
use go_health.Core.Check.{Check, ComponentStatus}
use go_health.Core.Engine.{Engine, Logger, done}
use go_health.Core.Engine.History.{Scope, Probe, checks_of, build, IsFree, build-done}
use go_health.Core.Engine.Cascade.{chosen-All, build-checks_of, IsNamedFreely}
use go_health.Core.Engine.Reordered.{IsDistinct, IsDistinct-perm, chosen-perm, chosen-IsDistinct}
use go_health.Core.Aggregate.{aggregate}
use go_health.Core.Aggregate.Order.{aggregate-permᴰ}
use go_health.Core.Aggregate.Statuses.{map_entries, aggregate-map_entries}
use go_health.Core.Log.{emit_log}
use go_health.Core.Log.Levels.{emit_log-Same}
use go_health.Core.Run.{collect, run_checks}
use go_health.Core.Run.Answer.{run, kind}
use go_health.Core.Run.Distinct.{entries_of, collect-distinct}
use go_health.Core.Run.Erased.{erase, collect-map_entries}
use go_health.Core.Run.InTurn.Seen.{finish, run-finish}
use go_health.Core.Run.InTurn.{IsSteady, settled, fork_join_steady, initial_erased}
use go_health.Core.Run.Reordered.{Entries, viewed, settled_perm}
use go_health.Core.Run.Slots.{initial}
use go_health.Core.Run.Wait.{run_checks_total}

module _ (ctx : Context) where
  initial-IsFresh :
      (checks : List Check)
      → All IsNamedFreely checks
      → All (λ d. IsFresh d.name (map_entries erase (initial 0))) checks
  initial-IsFresh checks free = All-mono checks (λ c other. ((λ same. other (sym same)), tt)) free

  -- The map of steady checks with distinct names: the heartbeat, and each check's own entry.
  run_checks_steady :
      (delay : ℕ → ℕ) (t : ℕ) (checks : List Check) (steady : All (IsSteady ctx) checks)
      → IsDistinct checks
      → All IsNamedFreely checks
      → (out : List (String × List ComponentStatus)) × (w : ℕ) × (run_checks delay ctx checks t
          ≡ returned out w)
        × (map_entries erase out
            ≡ map_entries erase (initial 0) ++ entries_of checks (settled ctx checks steady))
  run_checks_steady delay t checks steady distinct free =
      let (slots, u, j, same) = fork_join_steady ctx delay t checks steady in
      let (w, ran, _) = run_checks_total delay ctx checks t u slots j in
      (
        collect checks slots (initial t),
        w,
        ran,
        sym (collect-map_entries erase checks slots (initial t))
            ∙ ap₂ (collect checks) same (initial_erased t 0)
            ∙ collect-distinct checks (settled ctx checks steady) (map_entries erase (initial 0))
                distinct (initial-IsFresh checks free),
      )

emit_log-logger :
    (e e' : Engine) (kind : String) (status : Status) (n t : ℕ)
    → e.logger ≡ e'.logger
    → emit_log e kind status n t ≡ emit_log e' kind status n t
unfolding emit_log
emit_log-logger e e' kind status n t same = rw same refl

module _ (p : Probe) (e e' : Engine) (ctx : Context) where
  aggregate-erased_perm :
      (out out' : List (String × List ComponentStatus))
      → Permᴰ (map_entries erase out) (map_entries erase out')
      → aggregate out ≡ aggregate out'
  aggregate-erased_perm out out' d =
      sym (aggregate-map_entries erase (λ cs. refl) out)
      ∙ aggregate-permᴰ (map_entries erase out) (map_entries erase out') d
      ∙ aggregate-map_entries erase (λ cs. refl) out'

  abbrev entries : List (String × List ComponentStatus) → Entries
  entries out = Quot.mk (map_entries erase out)

  viewed-finish :
      (out out' : List (String × List ComponentStatus)) (v v' : ℕ) (status : Status)
      → e.service_id ≡ e'.service_id
      → e.description ≡ e'.description
      → e.logger ≡ e'.logger
      → length (checks_of p e) ≡ length (checks_of p e')
      → Permᴰ (map_entries erase out) (map_entries erase out')
      → viewed (finish p e ctx status out v) ≡ viewed (finish p e' ctx status out' v')
  viewed-finish out out' v v' status service description logger count d =
      let bag : entries out ≡ entries out' = Quot.sound d in
      let n = length (checks_of p e') in
      let logs =
        ap (λ k. emit_log e (kind p) status k v) count
        ∙ emit_log-logger e e' (kind p) status n v logger in
      elim (emit_log-Same e' (kind p) status n) [
        | inl (logged, writes) ↦ rw (logs, writes v, writes v', service, description, bag) refl
        | inr (message, panics) ↦ rw (logs, panics v, panics v') refl
      ]

  run_alike :
      (delay delay' : ℕ → ℕ) (t t' : ℕ)
      → e.service_id ≡ e'.service_id
      → e.description ≡ e'.description
      → e.logger ≡ e'.logger
      → IsDistinct (checks_of p e)
      → All IsNamedFreely (checks_of p e)
      → All (IsSteady ctx) (checks_of p e)
      → Permᴰ (checks_of p e) (checks_of p e')
      → viewed (run p e delay ctx t) ≡ viewed (run p e' delay' ctx t')
  run_alike delay delay' t t' service description logger distinct free steady d =
      let back = Perms.symm d in
      let steady' = All-perm (IsSteady ctx) back steady in
      let (out, w, ran, same) =
        run_checks_steady ctx delay t (checks_of p e) steady distinct free in
      let (out', w', ran', same') =
        run_checks_steady ctx delay' t' (checks_of p e') steady' (IsDistinct-perm d distinct)
          (All-perm IsNamedFreely back free) in
      let alike : Permᴰ (map_entries erase out) (map_entries erase out') =
        subst₂ Permᴰ (sym same) (sym same')
          (Perms.append_left (map_entries erase (initial 0)) (settled_perm ctx d steady steady')) in
      let status = aggregate-erased_perm out out' alike in
      ap viewed (run-finish p e ctx delay t w out ran)
      ∙ viewed-finish out out' w w' (aggregate out) service description logger (length-perm d) alike
      ∙ ap (λ s. viewed (finish p e' ctx s out' w')) status
      ∙ sym (ap viewed (run-finish p e' ctx delay' t' w' out' ran'))

-- A service registered checks with distinct names, none of them reserved, that always return under the
-- context of a request, with the same results. Another service made the same registrations in another
-- order. Both start; and whatever the schedulers do, and whenever they are asked, each Run method of the
-- one answers, logs or panics as that of the other, with the same entries in the map but for the order
-- and the stamps.
pub viewed-run :
    (service_id description : String) (loggers : List (Option Logger))
    (history history' : List (Scope × Check)) (ctx : Context)
    → All IsFree history
    → IsDistinct (map (λ r. r.1) history)
    → All (λ r. IsSteady ctx r.1) history
    → Permᴰ history history'
    → (e : Engine) × (e' : Engine) × (build service_id description loggers history ≡ done e)
      × (build service_id description loggers history' ≡ done e')
      × ((p : Probe) (delay delay' : ℕ → ℕ) (t t' : ℕ)
          → viewed (run p e delay ctx t) ≡ viewed (run p e' delay' ctx t'))
viewed-run service_id description loggers history history' ctx free distinct steady d =
    let built = build-done service_id description loggers history free in
    let built' =
      build-done service_id description loggers history' (All-perm IsFree (Perms.symm d) free) in
    (
      _,
      _,
      built,
      built',
      λ p delay delay' t t'.
          let on = build-checks_of p service_id description loggers history _ built in
          let on' = build-checks_of p service_id description loggers history' _ built' in
          run_alike p _ _ ctx delay delay' t t' refl refl refl
            (subst IsDistinct on (chosen-IsDistinct p history distinct))
            (subst (All IsNamedFreely) on (chosen-All IsNamedFreely p history free))
            (subst (All (IsSteady ctx)) on (chosen-All (IsSteady ctx) p history steady))
            (subst₂ Permᴰ on on' (chosen-perm p d)),
    )
