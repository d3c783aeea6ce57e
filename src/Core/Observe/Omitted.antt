-- ===== src/Core/Observe/Omitted.antt =====
-- Diagnostics that are suppressed do not reach the document.
use go_health.Prelude.{ℕ, ◌≡◌, ◌∙◌, ap, inl, inr, String, List, none, some, Member, All-member}
use go_health.Go.Exec.{returned}
use go_health.Go.Context.{Context}
use go_health.Go.Time.{rfc3339_nano, rfc3339_nano-ne-empty}
use go_health.Go.Table.{lookup}
use go_health.Go.Json.{Json, str, encoded}
use go_health.Core.Status.{status_pass}
use go_health.Core.Check.{Check, ComponentStatus}
use go_health.Core.Check.Encode.{component_fields}
use go_health.Core.Check.Encode.Keys.{component_fields-lookup, present, present_of_ne, present_list}
use go_health.Core.Observe.{run_one}
use go_health.Core.Observe.Entries.{IsDressed, run_one-All}

-- Where an entry that a check left passes, its document has no key "output" and no key
-- "affectedEndpoints", and it has the key "time", with the stamp of the end of the check.
pub run_one-omits :
    (parent : Context) (c : Check) (t u : ℕ) (found : List ComponentStatus) (cs : ComponentStatus)
    (fields : List (String × Json))
    → run_one parent c t ≡ returned found u
    → Member cs found
    → cs.status ≡ status_pass
    → component_fields cs ≡ encoded fields
    → (lookup "output" fields ≡ none)
      × (lookup "affectedEndpoints" fields ≡ none)
      × (lookup "time" fields ≡ some (str (rfc3339_nano u)))
run_one-omits parent c t u found cs fields ran member pass h =
    let (suppressed, time, _) =
      All-member (IsDressed c u) found cs (run_one-All parent c t u found ran) member in
    let (output, endpoints, _, stamp, _) = component_fields-lookup cs fields h in
    elim suppressed [
      | inl not_pass ↦ absurd (not_pass pass)
      | inr (no_output, no_endpoints) ↦ (
        output ∙ ap present no_output,
        endpoints ∙ ap present_list no_endpoints,
        stamp ∙ ap present time ∙ present_of_ne (rfc3339_nano u) (rfc3339_nano-ne-empty u),
      )
    ]
