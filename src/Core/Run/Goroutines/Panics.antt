-- ===== src/Core/Run/Goroutines/Panics.antt =====
-- core/engine.go: a check of a run that panics.
use go_health.Go.Exec.Join.{fork_join-panicked}
use go_health.Core.Run.{collect, run_checks}
use go_health.Core.Run.Slots.{initial}
use go_health.Prelude.{
  ℕ, zero, suc, ◌+◌, ◌-◌, ap, arith, [], ◌∷◌, map, ◌≡◌, ◌≤◌, String, List, some, get_elem?,
}
use go_health.Go.Exec.{panicked, returned, continue}
use go_health.Go.Context.{Context}
use go_health.Core.Check.{Check}
use go_health.Core.Observe.{run_one}

pub get_elem?-map :
    {A B : Type 0} (f : A → B) (l : List A) (i : ℕ) {a : A}
    → get_elem? l i ≡ some a
    → get_elem? (map f l) i ≡ some (f a)
get_elem?-map f [] i e = cc
get_elem?-map f (x ∷ l) zero {a} e = let same : x ≡ a = cc in rw same
get_elem?-map f (x ∷ l) (suc i) e = get_elem?-map f l i e

run_checks-panicked :
    (delay : ℕ → ℕ) (ctx : Context) (checks : List Check) (t i : ℕ) (c : Check) (message : String)
    → get_elem? checks i ≡ some c
    → run_one ctx c (t + delay i) ≡ panicked message
    → (first : String) × (run_checks delay ctx checks t ≡ panicked first)
unfolding run_checks
run_checks-panicked delay ctx [] t i c message has e = cc
run_checks-panicked delay ctx (d ∷ checks) t i c message has e =
    let (first, ended) =
      fork_join-panicked delay (map (run_one ctx) (d ∷ checks)) t i (run_one ctx c) message
        (get_elem?-map (run_one ctx) (d ∷ checks) i has) e in
    (first, ap (λ o. continue o (λ rs v. returned (collect (d ∷ checks) rs (initial t)) v)) ended)

-- Where a check of the run panics when it is started at a reading that is no earlier than the run, there
-- are delays with which `run_checks` panics.
pub some_delays-panicked :
    (ctx : Context) (checks : List Check) (t i : ℕ) (c : Check) (started : ℕ) (message : String)
    → get_elem? checks i ≡ some c
    → t ≤ started
    → run_one ctx c started ≡ panicked message
    → (delay : ℕ → ℕ) × (first : String) × (run_checks delay ctx checks t ≡ panicked first)
some_delays-panicked ctx checks t i c started message has after ran =
    let back : t + (started - t) ≡ started = omega arith in
    let (first, panics) =
      run_checks-panicked (λ j. started - t) ctx checks t i c message has (rw back ran) in
    (λ j. started - t, first, panics)
