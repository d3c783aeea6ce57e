-- ===== src/Checks/RedisCheck/Callbacks/Adequacy.antt =====
-- From the visit of a cluster to an interleaving of its callbacks.
use go_health.Prelude.{
  ℕ, suc, ◌+◌, ◌≤◌, ◌<◌, ◌≡◌, refl, sym, ap, ◌∙◌, ◌≢◌, inl, inr, List, [], ◌∷◌, ◌++◌, none, some,
  map, length, get_elem?, arith,
}
use go_health.Prelude.Families.{update, update_self, update_other, same_index-cases, bound}
use go_health.Prelude.Plans.{planned_over}
use go_health.Go.Exec.{returned}
use go_health.Go.Exec.Join.{shift, Joined}
use go_health.Go.Context.{Context}
use go_health.Core.Check.{Result}
use go_health.Checks.RedisCheck.{NodePinger, Visit, ping_node, with_error, after_visit}
use go_health.Checks.RedisCheck.Callbacks.Defs.{
  Pinged, waiting, pinging, answered, locked, loaded, stored, unlocked, State, tick, answer, lock,
  load, store, unlock, Reach, next,
}
use go_health.Checks.RedisCheck.Verdict.{after_visit-inv}
use mathlib.Core.Path.{subst}
use mathlib.Core.List.{append-nil, append_assoc}
use go_health.Checks.RedisCheck.Callbacks.Launching.{call_all}
use go_health.Checks.RedisCheck.Callbacks.Refinement.{IsOver}

module _ (ctx : Context) (nodes : List NodePinger) (u : ℕ) where
  -- A callback that was called goes through the critical section while nobody holds the mutex.
  pass :
      {s : State} (r : Reach ctx nodes u s) (i began : ℕ) (n : NodePinger) (result : Result) (v : ℕ)
      → s.phase i ≡ pinging began
      → s.holder ≡ none
      → get_elem? nodes i ≡ some n
      → ping_node ctx n began ≡ returned result v
      → (s' : State) × Reach ctx nodes u s'
        × (s'.out ≡ s.out ++ result ∷ [])
        × (s'.holder ≡ none)
        × (IsOver (s'.phase i))
        × ((j : ℕ) → i ≢ j → s'.phase j ≡ s.phase j)
  pass {s} r i began n result v at free has ran =
      let p : Pinged = record { node = n; started = began; result = result } in
      let late : v ≤ s.clock + v = omega arith in
      let f1 = update s.phase i (answered p) in
      let f2 = update f1 i (locked p) in
      let f3 = update f2 i (loaded p s.out) in
      let f4 = update f3 i (stored p) in
      let r1 = next (next r (tick v)) (answer i p v at has ran late) in
      let r2 = next r1 (lock i p (update_self s.phase i (answered p)) free) in
      let r3 = next r2 (load i p (update_self f1 i (locked p))) in
      let r4 = next r3 (store i p s.out (update_self f2 i (loaded p s.out))) in
      (
        _,
        next r4 (unlock i p (update_self f3 i (stored p))),
        refl,
        refl,
        rw (update_self f4 i (unlocked p)) tt,
        λ j ne.
            update_other f4 i (unlocked p) j ne
            ∙ update_other f3 i (stored p) j ne
            ∙ update_other f2 i (loaded p s.out) j ne
            ∙ update_other f1 i (locked p) j ne
            ∙ update_other s.phase i (answered p) j ne,
      )

  -- The callbacks from the index `k` on pass one after the other.
  pass_all :
      (v : ℕ) (delay : ℕ → ℕ) (k : ℕ) (rest : List NodePinger) (slots : List Result) (later : ℕ → ℕ)
      {s : State} (r : Reach ctx nodes u s)
      → Joined later u v (map (ping_node ctx) rest) slots
      → ((i : ℕ) → later i ≡ delay (k + i))
      → ((i : ℕ) → get_elem? rest i ≡ get_elem? nodes (k + i))
      → length nodes ≡ k + length rest
      → s.holder ≡ none
      → ((i : ℕ) → i < k → IsOver (s.phase i))
      → ((i : ℕ) → k ≤ i → i < length nodes → s.phase i ≡ pinging (u + delay i))
      → (s' : State) × Reach ctx nodes u s'
        × (s'.out ≡ s.out ++ slots)
        × ((i : ℕ) → i < length nodes → IsOver (s'.phase i))
  pass_all v delay k [] [] later {s} r j delays elems size free over called =
      (s, r, sym (append-nil s.out), λ i below. over i (omega arith))
  pass_all v delay k (n ∷ rest) (a ∷ slots) later {s} r ((w, ran, _), j) delays elems size free over
        called =
      let here : k + 0 ≡ k = omega arith in
      let due : later 0 ≡ delay k = delays 0 ∙ ap delay here in
      let has : get_elem? nodes k ≡ some n = ap (get_elem? nodes) (sym here) ∙ sym (elems 0) in
      let answers : ping_node ctx n (u + delay k) ≡ returned a w =
        ap (λ d. ping_node ctx n (u + d)) (sym due) ∙ ran in
      let (s', r', out, free', done, others) =
        pass r k (u + delay k) n a w (called k (omega arith) (omega arith)) free has answers in
      let (s'', r'', whole, all_over) =
        pass_all v delay (suc k) rest slots (shift later) r' j
          (λ i. delays (suc i) ∙ ap delay (omega arith))
          (λ i. elems (suc i) ∙ ap (get_elem? nodes) (omega arith)) (omega arith) free'
          (λ i below. elim (same_index-cases k i) [
            | inl (_, same) ↦ subst (λ x. IsOver (s'.phase x)) same done
            | inr (_, ne) ↦ subst IsOver (sym (others i ne)) (over i (omega arith))
          ])
          (λ i above below. others i (λ e. absurd (omega arith)) ∙ called i (omega arith) below) in
      (s'', r'', whole ∙ ap (λ l. l ++ slots) out ∙ append_assoc s.out (a ∷ []) slots, all_over)
  pass_all v delay k [] (a ∷ slots) later r j delays elems size free over called = absurd j
  pass_all v delay k (n ∷ rest) [] later r j delays elems size free over called = absurd j

-- Conversely, whatever the delays, when `after_visit` returns, some order of the steps leads to a state
-- in which the callbacks of all nodes are through, and what Run makes of the slice is what was returned.
pub after_visit-callbacks :
    (ctx : Context) (visit : Visit) (u v : ℕ) (results : List Result)
    → after_visit ctx visit u ≡ returned results v
    → (s : State) × Reach ctx visit.nodes u s
      × ((i : ℕ) → i < length visit.nodes → IsOver (s.phase i))
      × (results ≡ with_error visit.error s.out)
after_visit-callbacks ctx visit u v results h =
    let (out, same, j) = after_visit-inv ctx visit u v results h in
    let (b, below) = bound (length visit.nodes) visit.delay in
    let (s, r, (clock, empty, free, phases)) = call_all ctx visit.nodes u visit.delay b in
    let (s', r', whole, over) =
      pass_all ctx visit.nodes u v visit.delay 0 visit.nodes out visit.delay r j
        (λ i. ap visit.delay (omega arith)) (λ i. ap (get_elem? visit.nodes) (omega arith))
        (omega arith) free (λ i none_yet. absurd (omega arith))
        (λ i _ within.
          phases i within
          ∙ planned_over (length visit.nodes) u visit.delay waiting pinging b i (below i within)) in
    (s', r', over, same ∙ ap (with_error visit.error) (sym (whole ∙ ap (λ l. l ++ out) empty)))
