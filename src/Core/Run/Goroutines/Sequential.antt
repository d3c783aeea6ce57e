-- ===== src/Core/Run/Goroutines/Sequential.antt =====
-- The interleaved goroutines against a loop that runs the checks one after the other.
use go_health.Prelude.Families.{tabulate}
use go_health.Prelude.{
  ℕ, zero, suc, ◌<◌, ◌≡◌, sym, ◌∙◌, inl, inr, false, List, [], ◌∷◌, some, All, length, get_elem?,
}
use go_health.Go.Exec.{returned}
use go_health.Go.Context.{Context}
use go_health.Core.Check.{Check, ComponentStatus}
use go_health.Core.Aggregate.{aggregate}
use go_health.Core.Aggregate.Statuses.{map_entries}
use go_health.Core.Run.{collect}
use go_health.Core.Run.Erased.{erase}
use go_health.Core.Run.InTurn.{
  in_turn, IsSteady, run_one_steady, Joined-settled, in_turn_steady, collect_erased,
  aggregate_erased,
}
use go_health.Core.Run.Slots.{initial}
use go_health.Core.Run.Goroutines.Defs.{joined, State, Reach}
use go_health.Core.Run.Goroutines.Refinement.{find_unwound, unwound-panicked, joined-Joined}
use go_health.Core.Run.Goroutines.Invariant.{is_unwound}
use mathlib.Core.Path.{subst}

All-get_elem? :
    {A : Type 0} (P : A → Type 0) (l : List A) (i : ℕ) {a : A}
    → All P l
    → get_elem? l i ≡ some a
    → P a
All-get_elem? P [] i h e = cc
All-get_elem? P (x ∷ l) zero {a} h e = let same : x ≡ a = cc in subst P same h.0
All-get_elem? P (x ∷ l) (suc i) h e = All-get_elem? P l i h.1 e

-- A check that always returns does not panic.
never_unwound :
    (ctx : Context) (t : ℕ) (checks : List Check) (s : State)
    → All (IsSteady ctx) checks
    → Reach ctx checks t s
    → (i : ℕ) → i < length checks
    → is_unwound (s.phase i) ≡ false
never_unwound ctx t checks s steady r i below = elim (find_unwound checks s) [
  | inl fine ↦ fine i below
  | inr (j, _, started, message, at) ↦
      let (k, c, began, has, _, panics) = unwound-panicked ctx t checks s r j started message at in
      let (found, u, ran, _) =
        run_one_steady ctx c began (All-get_elem? (IsSteady ctx) checks k steady has) in
      cc
]

-- Where each check always returns under the context, with the same results: whatever the order of the
-- steps, once the main goroutine is past `wg.Wait()`, what is collected from its slots has the same
-- entries, stamps aside, in the same order, and the same status, as what is collected from a loop that
-- runs the checks one after the other, whenever that is started.
pub joined-in_turn :
    (ctx : Context) (t t' : ℕ) (checks : List Check) (s : State)
    → All (IsSteady ctx) checks
    → Reach ctx checks t s
    → s.main ≡ joined
    → (slots : List (List ComponentStatus)) × (u : ℕ) × (in_turn ctx checks t' ≡ returned slots u)
      × (map_entries erase (collect checks (tabulate (length checks) s.slot) (initial t))
          ≡ map_entries erase (collect checks slots (initial t')))
      × (aggregate (collect checks (tabulate (length checks) s.slot) (initial t))
          ≡ aggregate (collect checks slots (initial t')))
joined-in_turn ctx t t' checks s steady r at =
    let (delay, j, _) = joined-Joined ctx t checks s r at (never_unwound ctx t checks s steady r) in
    let (slots, u, ended, same) = in_turn_steady ctx t' checks steady in
    let alike = collect_erased checks _ slots t t' (
      Joined-settled ctx delay t s.clock checks (tabulate (length checks) s.slot) steady j
      ∙ sym same) in
    (slots, u, ended, alike, aggregate_erased _ _ alike)
