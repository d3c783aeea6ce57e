-- ===== src/Core/Aggregate/Strict.antt =====
-- The strict rule of `aggregate`: any fail, then any warn, otherwise pass.
use go_health.Prelude.{◌≡◌, refl, sym, ◌∙◌, ◌↔◌, ◌⊎◌, inl, inr, String, List, [], ◌∷◌, Any, arith}
use text.Mathlib.TextEquality.{eq_iff}
use go_health.Core.Status.{
  Status, status_pass, status_warn, status_fail, warn-ne-fail, pass-ne-fail, pass-ne-warn,
}
use go_health.Core.Check.{ComponentStatus}
use go_health.Core.Aggregate.{returns, leaves, scan, aggregate_from, aggregate}

-- Some entry of the list, or of the map, has the status.
abbrev pub Has : Status → List ComponentStatus → Type 0
Has s list = Any (λ cs. cs.status ≡ s) list

abbrev pub Reports : Status → List (String × List ComponentStatus) → Type 0
Reports s checks = Any (λ e. Has s e.1) checks

scan_cases :
    (overall : Status) (list : List ComponentStatus)
    → ((scan overall list ≡ returns status_fail) × Has status_fail list)
      ⊎ ((scan overall list ≡ leaves status_warn) × Has status_warn list × ¬ Has status_fail list)
      ⊎ ((scan overall list ≡ leaves overall) × (¬ Has status_warn list) × (¬ Has status_fail list))
unfolding scan
scan_cases overall [] = inr (inr (refl, λ h. h, λ h. h))
scan_cases overall (cs ∷ list) = ground (
  arith,
  eq_iff cs.status status_fail,
  eq_iff cs.status status_warn,
  scan_cases overall list,
  scan_cases status_warn list,
)

aggregate_from_cases :
    (overall : Status) (checks : List (String × List ComponentStatus))
    → ((aggregate_from overall checks ≡ status_fail) × Reports status_fail checks)
      ⊎ ((aggregate_from overall checks ≡ status_warn)
          × Reports status_warn checks
          × ¬ Reports status_fail checks)
      ⊎ ((aggregate_from overall checks ≡ overall)
          × (¬ Reports status_warn checks)
          × (¬ Reports status_fail checks))
unfolding aggregate_from
aggregate_from_cases overall [] = inr (inr (refl, λ h. h, λ h. h))
aggregate_from_cases overall ((name, list) ∷ checks) = ground (
  arith,
  scan_cases overall list,
  aggregate_from_cases overall checks,
  aggregate_from_cases status_warn checks,
)

pub aggregate_cases :
    (checks : List (String × List ComponentStatus))
    → ((aggregate checks ≡ status_fail) × Reports status_fail checks)
      ⊎ ((aggregate checks ≡ status_warn)
          × Reports status_warn checks
          × ¬ Reports status_fail checks)
      ⊎ ((aggregate checks ≡ status_pass)
          × (¬ Reports status_warn checks)
          × (¬ Reports status_fail checks))
unfolding aggregate
aggregate_cases checks = aggregate_from_cases status_pass checks

-- The status of the response is fail exactly when a component fails, warn exactly when one warns
-- and none fails, and pass in every other case, statuses outside the three names included.
pub aggregate_strict :
    (checks : List (String × List ComponentStatus))
    → ((aggregate checks ≡ status_fail) ↔ Reports status_fail checks)
      × ((aggregate checks ≡ status_warn)
          ↔ (Reports status_warn checks × ¬ Reports status_fail checks))
      × ((aggregate checks ≡ status_pass)
          ↔ ((¬ Reports status_warn checks) × ¬ Reports status_fail checks))
aggregate_strict checks = elim (aggregate_cases checks) [
  | inl (e, f) ↦ (
    (λ _. f, λ _. e),
    (λ h. absurd (warn-ne-fail (sym h ∙ e)), λ h. absurd (h.1 f)),
    (λ h. absurd (pass-ne-fail (sym h ∙ e)), λ h. absurd (h.1 f)),
  )
  | inr (inl (e, w, nf)) ↦ (
    (λ h. absurd (warn-ne-fail (sym e ∙ h)), λ f. absurd (nf f)),
    (λ _. (w, nf), λ _. e),
    (λ h. absurd (pass-ne-warn (sym h ∙ e)), λ h. absurd (h.0 w)),
  )
  | inr (inr (e, nw, nf)) ↦ (
    (λ h. absurd (pass-ne-fail (sym e ∙ h)), λ f. absurd (nf f)),
    (λ h. absurd (pass-ne-warn (sym e ∙ h)), λ h. absurd (nw h.0)),
    (λ _. (nw, nf), λ _. e),
  )
]
