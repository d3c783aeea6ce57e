-- ===== src/Core/Observe/Inverse.antt =====
-- From the entries of a check back to the results of its Run function.
use mathlib.Core.Path.{subst₂}
use go_health.Prelude.{ℕ, ◌≡◌, refl, sym, ap, ◌∙◌, ◌↔◌, inl, inr, List, [], ◌∷◌, some, map, Any}
use go_health.Go.Exec.{returned, Exec, continue-eq-returned}
use go_health.Go.Context.{Context}
use go_health.Go.Time.{rfc3339_nano}
use go_health.Core.Status.{Status}
use go_health.Core.Check.{Result, Check, ComponentStatus}
use go_health.Core.Observe.{invoke, observe, check_context, run_one}
use go_health.Core.Observe.Entries.{TellAll, map-observe-TellAll}

pub run_one-inv :
    (parent : Context) (c : Check) (t u : ℕ) (run : Context → Exec (List Result))
    (found : List ComponentStatus)
    → c.run ≡ some run
    → run_one parent c t ≡ returned found u
    → (results : List Result) × (run (check_context parent c t) t ≡ returned results u)
      × TellAll c u results found
unfolding run_one
run_one-inv parent c t u run found has_run h =
    let (results, v, ran, last) =
      continue-eq-returned (invoke c.run (check_context parent c t) t)
        (λ rs w. returned (map (observe c (rfc3339_nano w)) rs) w) h in
    let same : map (observe c (rfc3339_nano v)) results ≡ found = cc in
    let end : v ≡ u = cc in
    (
      results,
      sym (ap (λ r. invoke r (check_context parent c t) t) has_run)
          ∙ ran
          ∙ ap (returned results) end,
      subst₂ (λ (f : List ComponentStatus) (w : ℕ). TellAll c w results f) same end
          (map-observe-TellAll c v results),
    )

-- Some entry has a status exactly when some result has it.
pub TellAll-Any :
    (s : Status) (c : Check) (u : ℕ) (results : List Result) (found : List ComponentStatus)
    → TellAll c u results found
    → Any (λ cs. cs.status ≡ s) found ↔ Any (λ r. r.status ≡ s) results
TellAll-Any s c u [] [] told = (λ h. h, λ h. h)
TellAll-Any s c u (r ∷ results) (cs ∷ found) (told, later) =
    let (to, from) = TellAll-Any s c u results found later in
    (
      elim [ inl h ↦ inl (sym told.status ∙ h) | inr h ↦ inr (to h) ],
      elim [ inl h ↦ inl (told.status ∙ h) | inr h ↦ inr (from h) ],
    )
TellAll-Any s c u [] (cs ∷ found) told = absurd told
TellAll-Any s c u (r ∷ results) [] told = absurd told

pub TellAll-nil :
    (c : Check) (u : ℕ) (results : List Result) (found : List ComponentStatus)
    → TellAll c u results found
    → (found ≡ []) ↔ (results ≡ [])
TellAll-nil c u [] [] told = (λ h. refl, λ h. refl)
TellAll-nil c u (r ∷ results) (cs ∷ found) told = (λ h. cc, λ h. cc)
TellAll-nil c u [] (cs ∷ found) told = absurd told
TellAll-nil c u (r ∷ results) [] told = absurd told
