-- ===== src/Core/Run/Response.antt =====
-- The map of a response, by name.
use go_health.Prelude.{
  ℕ, ◌≡◌, refl, sym, ap, ◌∙◌, ◌≢◌, ◌⊎◌, inl, inr, String, String-cases, List, [], ◌∷◌, none, some,
  map, All, test_of_ne,
}
use go_health.Go.Exec.{returned, fork_join}
use go_health.Go.Context.{Context}
use go_health.Go.Time.{rfc3339_nano}
use go_health.Go.Table.{lookup}
use go_health.Core.Check.{Check, ComponentStatus, HealthResponse}
use go_health.Core.Engine.{Engine, system_time_check_name}
use go_health.Core.Engine.History.{Probe, checks_of}
use go_health.Core.Engine.Cascade.{IsNamedFreely, IsWellFormed}
use go_health.Core.Observe.{run_one}
use go_health.Core.Log.{LogEntry}
use go_health.Core.Run.{system_time_entry}
use go_health.Core.Run.Entries.{found_under, joined, lookup-collect}
use go_health.Core.Run.Slots.{initial, run_checks-Ran}
use go_health.Core.Run.Answer.{run, run-Answered}

found_under-free :
    (checks : List Check) (slots : List (List ComponentStatus))
    → All IsNamedFreely checks
    → found_under system_time_check_name checks slots ≡ []
found_under-free [] slots free = refl
found_under-free (c ∷ checks) [] free = refl
found_under-free (c ∷ checks) (found ∷ slots) (free, later) =
    rw (test_of_ne c.name system_time_check_name free) (found_under-free checks slots later)

lookup-initial_self :
    (t : ℕ)
    → lookup system_time_check_name (initial t) ≡ some (system_time_entry (rfc3339_nano t) ∷ [])
unfolding lookup
lookup-initial_self t = refl

lookup-initial_ne : (n : String) (t : ℕ) → n ≢ system_time_check_name → lookup n (initial t) ≡ none
unfolding lookup
lookup-initial_ne n t other = rw (test_of_ne system_time_check_name n (λ same. other (sym same)))

-- In a well-formed engine the names of a response are the heartbeat's and those of the checks that
-- observed something: under "system:time" stands exactly one entry, stamped with the start of the run, and under
-- any other name the observations of the checks with that name, in the order of registration, or
-- no entry where there are none.
pub run_entries :
    (p : Probe) (e : Engine) (delay : ℕ → ℕ) (ctx : Context) (t u : ℕ) (response : HealthResponse)
    (logged : List LogEntry)
    → IsWellFormed e
    → run p e delay ctx t ≡ returned (response, logged) u
    → (slots : List (List ComponentStatus)) × (fork_join delay (map (run_one ctx) (checks_of p e)) t
        ≡ returned slots u)
      × (lookup system_time_check_name response.checks
          ≡ some (system_time_entry (rfc3339_nano t) ∷ []))
      × ((n : String)
          → (n ≡ system_time_check_name)
            ⊎ (lookup n response.checks ≡ joined none (found_under n (checks_of p e) slots)))
run_entries p e delay ctx t u response logged w h =
    let (ran, _, _, _, _) = run-Answered p e delay ctx t u response logged h in
    let r = run_checks-Ran delay ctx (checks_of p e) t u response.checks ran in
    let found = λ (n : String). found_under n (checks_of p e) r.slots in
    let under = λ (n : String).
      ap (lookup n) r.collected ∙ lookup-collect n (checks_of p e) r.slots (initial t) in
    (
      r.slots,
      r.ended,
      under system_time_check_name
          ∙ ap (joined _) (found_under-free (checks_of p e) r.slots (w.free p))
          ∙ lookup-initial_self t,
      λ n. elim (String-cases n system_time_check_name) [
        | inl same ↦ inl same
        | inr other ↦
            inr (under n ∙ ap (λ entry. joined entry (found n)) (lookup-initial_ne n t other))
      ],
    )
