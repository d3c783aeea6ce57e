-- ===== src/Examples/Callbacks.antt =====
-- The callbacks on the two shards of a Redis cluster, step by step.
use mathlib.Core.List.{Permᴰ}
use go_health.Prelude.{
  ℕ, get_elem?, ◌+◌, ◌*◌, zero, suc, ◌≤◌, ◌<◌, ◌≡◌, refl, String, List, [], ◌∷◌, Option, none, some,
  arith,
}
use go_health.Go.Exec.{fork_join, returned, takes}
use go_health.Go.Context.{background}
use go_health.Core.Check.{Result}
use go_health.Checks.RedisCheck.Callbacks.Adequacy.{after_visit-callbacks}
use go_health.Checks.RedisCheck.{Visit, NodePinger, ping_node, pinged, with_error, after_visit}
use go_health.Checks.RedisCheck.Callbacks.Defs.{
  Pinged, State, Reach, begin, next, tick, call, answer, lock, load, store, unlock,
}
use go_health.Checks.RedisCheck.Callbacks.Progress.{Leads, callbacks_finish}
use go_health.Checks.RedisCheck.Callbacks.Refinement.{
  IsOver, callbacks_exclusive, callbacks_after_visit,
}

abbrev pinger : String → ℕ → Option String → NodePinger
pinger addr time error = record { addr = addr; ping = λ ctx. takes time error }

abbrev nodes : List NodePinger
nodes = pinger "10.0.0.1:6379" 8 none ∷ pinger "10.0.0.2:6379" 5 (some "i/o timeout") ∷ []

abbrev first : Pinged
first = record {
  node = pinger "10.0.0.1:6379" 8 none;
  started = 1;
  result = pinged "10.0.0.1:6379" none;
}

abbrev second : Pinged
second = record {
  node = pinger "10.0.0.2:6379" 5 (some "i/o timeout");
  started = 3;
  result = pinged "10.0.0.2:6379" (some "i/o timeout");
}

first_answers : ping_node background first.node 1 ≡ returned first.result 9
unfolding ping_node
first_answers = refl

second_answers : ping_node background second.node 3 ≡ returned second.result 8
unfolding ping_node
second_answers = refl

-- The second node has the mutex and has read the slice, while the first waits for the mutex.
abbrev inside : (s : State) × Reach background nodes 1 s
inside = (
  _,
  next
      (next
        (next
          (next
            (next
              (next (next (next begin (call 0 (omega arith) refl)) (tick 2))
                (call 1 (omega arith) refl))
              (tick 30))
            (answer 1 second 8 refl refl second_answers (omega arith)))
          (answer 0 first 9 refl refl first_answers (omega arith)))
        (lock 1 second refl refl))
      (load 1 second refl),
)

callbacks_exclusive_example : ◌≡◌ {A = ℕ} 1 1
callbacks_exclusive_example = callbacks_exclusive background 1 nodes inside.0 1 1 inside.1 refl refl

abbrev through : (s : State) × Reach background nodes 1 s
through = (
  _,
  next
      (next
        (next
          (next (next (next inside.1 (store 1 second [] refl)) (unlock 1 second refl))
            (lock 0 first refl refl))
          (load 0 first refl))
        (store 0 first (second.result ∷ []) refl))
      (unlock 0 first refl),
)

through-IsOver : (i : ℕ) → i < 2 → IsOver (through.0.phase i)
through-IsOver zero below = tt
through-IsOver (suc zero) below = tt
through-IsOver (suc (suc i)) below = absurd (omega arith)

slice_of_both : through.0.out ≡ second.result ∷ first.result ∷ []
slice_of_both = refl

callbacks_after_visit_example :
    (visited : List NodePinger) × (delay : ℕ → ℕ) × (w : ℕ) × Permᴰ visited nodes
    × (after_visit background (record { nodes = visited; delay = delay; error = some "MOVED" }) 1
        ≡ returned (with_error (some "MOVED") through.0.out) w)
    × (w ≤ through.0.clock)
callbacks_after_visit_example =
    callbacks_after_visit background 1 nodes (some "MOVED") through.0 through.1 through-IsOver

each_answers :
    (i : ℕ) (n : NodePinger)
    → get_elem? nodes i ≡ some n
    → (started : ℕ) → (r : Result) × (v : ℕ) × (ping_node background n started ≡ returned r v)
unfolding ping_node
each_answers zero n has started =
    let same : pinger "10.0.0.1:6379" 8 none ≡ n = cc in
    rw (← same) (pinged "10.0.0.1:6379" none, started + 8, refl)
each_answers (suc zero) n has started =
    let same : pinger "10.0.0.2:6379" 5 (some "i/o timeout") ≡ n = cc in
    rw (← same) (pinged "10.0.0.2:6379" (some "i/o timeout"), started + 5, refl)
each_answers (suc (suc i)) n has started = cc

callbacks_finish_example :
    (s : State) × Leads background nodes inside.0 s
    × Reach background nodes 1 s
    × ((i : ℕ) → i < 2 → IsOver (s.phase i))
callbacks_finish_example = callbacks_finish background nodes 1 each_answers inside.1

-- The second callback starts late.
abbrev visit : Visit
visit = record { nodes = nodes; delay = λ i. i * 2; error = none }

visit_returns : after_visit background visit 1 ≡ returned (first.result ∷ second.result ∷ []) 9
unfolding after_visit ping_node fork_join
visit_returns = refl

after_visit-callbacks_example :
    (s : State) × Reach background nodes 1 s
    × ((i : ℕ) → i < 2 → IsOver (s.phase i))
    × (first.result ∷ second.result ∷ [] ≡ with_error none s.out)
after_visit-callbacks_example =
    after_visit-callbacks background visit 1 9 (first.result ∷ second.result ∷ []) visit_returns
