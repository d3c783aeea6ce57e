-- ===== src/Core/Run/Verdict.antt =====
-- The status of a response against what the checks of its probe observed.
use mathlib.Core.Path.{subst}
use go_health.Prelude.{
  ℕ, ◌≡◌, refl, sym, ◌∙◌, ◌≢◌, ◌↔◌, ◌⊎◌, inl, inr, String, List, [], ◌∷◌, ◌++◌, Option, some, map,
  Any, Any-append_left, Any-append_right, Any-append_cases, Bool-cases, ◌==◌,
}
use go_health.Go.Exec.{returned, fork_join}
use go_health.Go.Exec.Join.{shift, Joined, fork_join-Joined}
use go_health.Go.Context.{Context}
use go_health.Go.Table.{lookup, assign}
use go_health.Core.Status.{
  Status, status_pass, status_warn, status_fail, pass-ne-fail, pass-ne-warn,
}
use go_health.Core.Check.{Check, ComponentStatus, HealthResponse}
use go_health.Core.Engine.{Engine}
use go_health.Core.Engine.History.{Probe, checks_of}
use go_health.Core.Observe.{run_one}
use go_health.Core.Aggregate.Strict.{Has, Reports, aggregate_strict}
use go_health.Core.Log.{LogEntry}
use go_health.Core.Run.{existing, collect_one, collect, system_time_entry}
use go_health.Core.Run.Slots.{initial, run_checks-Ran}
use go_health.Core.Run.Answer.{run, run-Answered}

-- Some goroutine left a slot with an observation of the status.
abbrev pub Observed : Status → List (List ComponentStatus) → Type 0
Observed s slots = Any (Has s) slots

module _ (s : Status) (k : String) (found : List ComponentStatus) where
  Reports-assign :
      (out : List (String × List ComponentStatus)) (entry : Option (List ComponentStatus))
      → lookup k out ≡ entry
      → Reports s (assign k (existing entry ++ found) out) ↔ (Reports s out ⊎ Has s found)
  unfolding assign lookup
  Reports-assign [] entry e =
      rw (← e)
        (elim [ inl h ↦ inr h | inr h ↦ absurd h ], elim [ inl h ↦ absurd h | inr h ↦ inl h ])
  Reports-assign ((j, v) ∷ out) entry e = elim (Bool-cases (j == k)) [
    | inl same ↦
        let held : some v ≡ entry = rw same at e in
        rw same (
          rw (← held) (
            elim [
              | inl h ↦ elim (Any-append_cases _ v found h) [ inl a ↦ inl (inl a) | inr b ↦ inr b ]
              | inr h ↦ inl (inr h)
            ],
            elim [
              | inl (inl h) ↦ inl (Any-append_left _ v found h)
              | inl (inr h) ↦ inr h
              | inr h ↦ inl (Any-append_right _ v found h)
            ],
          ))
    | inr other ↦
        let (to, from) = Reports-assign out entry (rw other at e) in
        rw other (
          elim [
            | inl h ↦ inl (inl h)
            | inr h ↦ elim (to h) [ inl a ↦ inl (inr a) | inr b ↦ inr b ]
          ],
          elim [
            | inl (inl h) ↦ inl h
            | inl (inr h) ↦ inr (from (inl h))
            | inr h ↦ inr (from (inr h))
          ],
        )
  ]

Reports-collect_one :
    (s : Status) (c : Check) (found : List ComponentStatus)
    (out : List (String × List ComponentStatus))
    → Reports s (collect_one c found out) ↔ (Reports s out ⊎ Has s found)
unfolding collect_one
Reports-collect_one s c [] out = (λ h. inl h, elim [ inl h ↦ h | inr h ↦ absurd h ])
Reports-collect_one s c (x ∷ xs) out = Reports-assign s c.name (x ∷ xs) out (lookup c.name out) refl

-- Each slot belongs to a check, so that none is left out of the map.
Reports-collect :
    (s : Status) (delay : ℕ → ℕ) (ctx : Context) (t u : ℕ) (checks : List Check)
    (slots : List (List ComponentStatus)) (out : List (String × List ComponentStatus))
    → Joined delay t u (map (run_one ctx) checks) slots
    → Reports s (collect checks slots out) ↔ (Reports s out ⊎ Observed s slots)
unfolding collect
Reports-collect s delay ctx t u [] [] out j = (λ h. inl h, elim [ inl h ↦ h | inr h ↦ absurd h ])
Reports-collect s delay ctx t u (c ∷ checks) (found ∷ slots) out (_, j) =
    let (to, from) =
      Reports-collect s (shift delay) ctx t u checks slots (collect_one c found out) j in
    let (to_one, from_one) = Reports-collect_one s c found out in
    (
      λ h. elim (to h) [
        | inl a ↦ elim (to_one a) [ inl b ↦ inl b | inr b ↦ inr (inl b) ]
        | inr a ↦ inr (inr a)
      ],
      elim [
        | inl h ↦ from (inl (from_one (inl h)))
        | inr (inl h) ↦ from (inl (from_one (inr h)))
        | inr (inr h) ↦ from (inr h)
      ],
    )
Reports-collect s delay ctx t u [] (found ∷ slots) out j = absurd j
Reports-collect s delay ctx t u (c ∷ checks) [] out j = absurd j

-- The heartbeat passes.
not-Reports-initial : (s : Status) (t : ℕ) → status_pass ≢ s → ¬ Reports s (initial t)
unfolding system_time_entry
not-Reports-initial s t other (inl (inl h)) = other h
not-Reports-initial s t other (inl (inr h)) = absurd h
not-Reports-initial s t other (inr h) = absurd h

collected_iff :
    (s : Status) (delay : ℕ → ℕ) (ctx : Context) (t u : ℕ) (checks : List Check)
    (slots : List (List ComponentStatus))
    → status_pass ≢ s
    → Joined delay t u (map (run_one ctx) checks) slots
    → Reports s (collect checks slots (initial t)) ↔ Observed s slots
collected_iff s delay ctx t u checks slots other j =
    let (to, from) = Reports-collect s delay ctx t u checks slots (initial t) j in
    (
      λ h. elim (to h) [ inl a ↦ absurd (not-Reports-initial s t other a) | inr b ↦ b ],
      λ h. from (inr h),
    )

-- When a Run method returns, each of its checks has left a slot, and the status of the response is
-- fail exactly when some observation in a slot fails, warn exactly when one warns and none fails,
-- and pass exactly when none does either.
pub run_verdict :
    (p : Probe) (e : Engine) (delay : ℕ → ℕ) (ctx : Context) (t u : ℕ) (response : HealthResponse)
    (logged : List LogEntry)
    → run p e delay ctx t ≡ returned (response, logged) u
    → (slots : List (List ComponentStatus)) × (fork_join delay (map (run_one ctx) (checks_of p e)) t
        ≡ returned slots u)
      × ((response.status ≡ status_fail) ↔ Observed status_fail slots)
      × ((response.status ≡ status_warn)
          ↔ (Observed status_warn slots × ¬ Observed status_fail slots))
      × ((response.status ≡ status_pass)
          ↔ ((¬ Observed status_warn slots) × ¬ Observed status_fail slots))
run_verdict p e delay ctx t u response logged h =
    let (ran, status, _, _, _) = run-Answered p e delay ctx t u response logged h in
    let r = run_checks-Ran delay ctx (checks_of p e) t u response.checks ran in
    let j = fork_join-Joined delay (map (run_one ctx) (checks_of p e)) t u r.slots r.ended in
    let seen = λ (s : Status) (other : status_pass ≢ s).
      subst (λ out. Reports s out ↔ Observed s r.slots) (sym r.collected)
        (collected_iff s delay ctx t u (checks_of p e) r.slots other j) in
    let (fail_to, fail_from) = seen status_fail pass-ne-fail in
    let (warn_to, warn_from) = seen status_warn pass-ne-warn in
    let (fails, warns, passes) = aggregate_strict response.checks in
    (
      r.slots,
      r.ended,
      (λ a. fail_to (fails.0 (sym status ∙ a)), λ o. status ∙ fails.1 (fail_from o)),
      (
        λ a. let (w, nf) = warns.0 (sym status ∙ a) in (warn_to w, λ o. nf (fail_from o)),
        λ o. status ∙ warns.1 (warn_from o.0, λ f. o.1 (fail_to f)),
      ),
      (
        λ a.
            let (nw, nf) = passes.0 (sym status ∙ a) in
            (λ o. nw (warn_from o), λ o. nf (fail_from o)),
        λ o. status ∙ passes.1 (λ w. o.0 (warn_to w), λ f. o.1 (fail_to f)),
      ),
    )
