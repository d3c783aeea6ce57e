-- ===== src/Core/Observe/Single.antt =====
-- A check that makes one observation.
use go_health.Prelude.{ℕ, ◌≡◌, sym, ◌∙◌, inl, inr, String, List, [], ◌∷◌, Option, none, some}
use go_health.Go.Exec.{returned, Exec}
use go_health.Go.Context.{Context}
use go_health.Core.Status.{status_pass, status_fail, pass-ne-fail}
use go_health.Core.Check.{Result, Check, ComponentStatus}
use go_health.Core.Observe.{check_context, run_one}
use go_health.Core.Observe.Entries.{Tells, TellAll, run_one-TellAll}

-- A result for a call that succeeded, or that failed with the text of an error.
abbrev pub Says : Option String → Result → Type 0
Says none r = r.status ≡ status_pass
Says (some err) r = (r.status ≡ status_fail) × (r.output ≡ err)

-- The same of an entry of the response.
abbrev pub Judged : Option String → ComponentStatus → Type 0
Judged none cs = (cs.status ≡ status_pass) × (cs.output ≡ "")
Judged (some err) cs = (cs.status ≡ status_fail) × (cs.output ≡ err)

Tells-Judged :
    (err : Option String) {c : Check} {u : ℕ} {r : Result} {cs : ComponentStatus}
    → Says err r
    → Tells c u r cs
    → Judged err cs
Tells-Judged none says told = (
  told.status ∙ says,
  elim told.suppressed [
    | inl other ↦ absurd (other (told.status ∙ says))
    | inr (output, _) ↦ output
  ],
)
Tells-Judged (some err) (status, output) told = (
  told.status ∙ status,
  elim told.kept [
    | inl pass ↦ absurd (pass-ne-fail (sym pass ∙ status))
    | inr (kept, _) ↦ kept ∙ output
  ],
)

-- One result becomes one entry with the same verdict and the same component.
pub run_one_single :
    (parent : Context) (c : Check) (t u : ℕ) (run : Context → Exec (List Result)) (r : Result)
    (err : Option String)
    → c.run ≡ some run
    → run (check_context parent c t) t ≡ returned (r ∷ []) u
    → Says err r
    → (cs : ComponentStatus) × (run_one parent c t ≡ returned (cs ∷ []) u)
      × Judged err cs
      × (cs.component_id ≡ r.component_id)
run_one_single parent c t u run r err has_run ran says =
    let (found, done, told) = run_one-TellAll parent c t u run (r ∷ []) has_run ran in
    only found done told
  where
    only :
        (found : List ComponentStatus)
        → run_one parent c t ≡ returned found u
        → TellAll c u (r ∷ []) found
        → (cs : ComponentStatus) × (run_one parent c t ≡ returned (cs ∷ []) u)
          × Judged err cs
          × (cs.component_id ≡ r.component_id)
    only (cs ∷ []) done (told, _) = (cs, done, Tells-Judged err says told, told.component_id)
    only [] done told = absurd told
    only (cs ∷ d ∷ rest) done told = absurd told.1
