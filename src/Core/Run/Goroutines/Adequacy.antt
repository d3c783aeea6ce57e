-- ===== src/Core/Run/Goroutines/Adequacy.antt =====
-- From a choice of delays to an interleaving of the goroutines.
use go_health.Prelude.{
  ℕ, zero, suc, ◌+◌, ◌≤◌, ◌<◌, ◌≡◌, refl, ◌∙◌, ap, ◌≢◌, false, List, [], ◌∷◌, some, map, length,
  get_elem?, arith, ltb, if◌then◌else◌,
}
use go_health.Prelude.Families.{
  update_elim, count_none_below, tabulate, tabulate-eq, get_elem?-some, bound,
}
use go_health.Go.Exec.{Exec, returned, fork_join}
use go_health.Go.Exec.Join.{shift, Joined, fork_join-Joined}
use go_health.Go.Context.{Context}
use go_health.Core.Check.{Check, ComponentStatus}
use go_health.Core.Observe.{run_one}
use go_health.Core.Run.Goroutines.Defs.{
  Phase, running, ended, launching, joined, is_crashed, State, tick, finish, wait, Reach, next,
}
use go_health.Core.Run.Goroutines.Invariant.{is_active}
use go_health.Core.Run.Goroutines.Refinement.{Reach-Inv}
use go_health.Core.Run.Goroutines.Panics.{get_elem?-map}
use go_health.Core.Run.Goroutines.Launching.{start_all}

module _ {A : Type 0} where
  Joined-slot :
      (delay : ℕ → ℕ) (t u : ℕ) (ms : List (Exec A)) (slots : List A) (i : ℕ) (m : Exec A)
      → Joined delay t u ms slots
      → get_elem? ms i ≡ some m
      → (a : A) × (v : ℕ) × (get_elem? slots i ≡ some a) × (m (t + delay i) ≡ returned a v)
  Joined-slot delay t u (n ∷ ms) (a ∷ slots) zero m ((v, ran, _), j) has =
      let same : n ≡ m = cc in (a, v, refl, rw same at ran)
  Joined-slot delay t u (n ∷ ms) (a ∷ slots) (suc i) m (_, j) has =
      Joined-slot (shift delay) t u ms slots i m j has
  Joined-slot delay t u [] [] i m j has = cc
  Joined-slot delay t u [] (a ∷ slots) i m j has = absurd j
  Joined-slot delay t u (n ∷ ms) [] i m j has = absurd j

Joined-length :
    (delay : ℕ → ℕ) (ctx : Context) (t u : ℕ) (checks : List Check)
    (slots : List (List ComponentStatus))
    → Joined delay t u (map (run_one ctx) checks) slots
    → length checks ≡ length slots
Joined-length delay ctx t u [] [] j = refl
Joined-length delay ctx t u (c ∷ checks) (a ∷ slots) (_, j) =
    ap suc (Joined-length (shift delay) ctx t u checks slots j)
Joined-length delay ctx t u [] (a ∷ slots) j = absurd j
Joined-length delay ctx t u (c ∷ checks) [] j = absurd j

module _ (ctx : Context) (checks : List Check) (t u : ℕ) (delay : ℕ → ℕ)
    (slots : List (List ComponentStatus))
    (j : Joined delay t u (map (run_one ctx) checks) slots) where
  -- The phase of a goroutine, once the first `k` have ended.
  abbrev finished : ℕ → ℕ → Phase
  finished k i = if ltb i k then ended (t + delay i) else running (t + delay i)

  abbrev IsFinished : ℕ → State → Type 0
  IsFinished k s =
      (s.main ≡ launching (length checks))
      × ((i : ℕ) → i < length checks → s.phase i ≡ finished k i)
      × ((i : ℕ) → i < k → get_elem? slots i ≡ some (s.slot i))

  finished-next : (k i : ℕ) → k ≢ i → finished k i ≡ finished (suc k) i
  finished-next k i ne = ground arith

  finished-running : (k : ℕ) → finished k k ≡ running (t + delay k)
  finished-running k = ground arith

  finished-ended : (k : ℕ) → ended (t + delay k) ≡ finished (suc k) k
  finished-ended k = ground arith

  all_started : (s : State) × Reach ctx checks t s × IsFinished 0 s
  all_started =
      let (b, below) = bound (length checks) delay in
      let (s, r, (at, clock, phases)) = start_all ctx checks t delay b in
      (
        s,
        r,
        (
          at,
          λ i within. let due = below i within in phases i within ∙ ground arith,
          λ i none_yet. absurd (omega arith),
        ),
      )

  finish_upto : (k : ℕ) → k ≤ length checks → (s : State) × Reach ctx checks t s × IsFinished k s
  finish_upto zero le = all_started
  finish_upto (suc k) le =
      let (s, r, (at, phases, kept)) = finish_upto k (omega arith) in
      let (c, has) = get_elem?-some checks k (omega arith) in
      let (found, v, in_slot, ran) =
        Joined-slot delay t u (map (run_one ctx) checks) slots k (run_one ctx c) j
          (get_elem?-map (run_one ctx) checks k has) in
      let up : is_crashed s.main ≡ false = ap is_crashed at in
      let late : v ≤ s.clock + v = omega arith in
      (
        _,
        next (next r (tick v)) (
            finish k c (t + delay k) v found up (phases k (omega arith) ∙ finished-running k) has
              ran late),
        (
          at,
          update_elim (λ i p. i < length checks → p ≡ finished (suc k) i) s.phase k
              (ended (t + delay k)) (λ within. finished-ended k)
              (λ i ne within. phases i within ∙ finished-next k i ne),
          update_elim (λ i x. i < suc k → get_elem? slots i ≡ some x) s.slot k found
              (λ within. in_slot) (λ i ne within. kept i (omega arith)),
        ),
      )

  all_joined :
      (s : State) × Reach ctx checks t s
      × (s.main ≡ joined)
      × (tabulate (length checks) s.slot ≡ slots)
  all_joined =
      let (s, r, (at, phases, kept)) = finish_upto (length checks) (omega arith) in
      let h = Reach-Inv ctx t checks r in
      let idle : (i : ℕ) → i < length checks → is_active (s.phase i) ≡ false =
        λ i within. ap is_active (phases i within) ∙ ground arith in
      let none_left : s.wg ≡ 0 =
        h.counted ∙ count_none_below is_active (length checks) s.phase idle in
      let same = Joined-length delay ctx t u checks slots j in
      (
        _,
        next r (wait at none_left),
        refl,
        ap (λ n. tabulate n s.slot) same
            ∙ tabulate-eq slots s.slot (λ i within. kept i (omega arith)),
      )

-- Whatever the delays, when the fork and join of the checks returns, some order of the steps leads to
-- a state past `wg.Wait()` with the same slots.
pub fork_join-joined :
    (ctx : Context) (checks : List Check) (t u : ℕ) (delay : ℕ → ℕ)
    (slots : List (List ComponentStatus))
    → fork_join delay (map (run_one ctx) checks) t ≡ returned slots u
    → (s : State) × Reach ctx checks t s
      × (s.main ≡ joined)
      × (tabulate (length checks) s.slot ≡ slots)
fork_join-joined ctx checks t u delay slots ended_at =
    all_joined ctx checks t u delay slots
      (fork_join-Joined delay (map (run_one ctx) checks) t u slots ended_at)
