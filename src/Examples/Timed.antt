-- ===== src/Examples/Timed.antt =====
-- The shop with a dependency that does not answer before the context of its check is done.
use go_health.Prelude.{
  ℕ, max, min, ◌+◌, ◌≤◌, ◌≡◌, refl, inr, ◌||◌, true, List, [], ◌∷◌, Option, none, some, map, leb,
  arith,
}
use go_health.Go.Exec.{Exec, returned, blocked, fork_join}
use go_health.Go.Exec.Prompt.{Ends, Ends-mono, Anything, Honours}
use go_health.Go.Duration.{seconds}
use go_health.Go.Context.{Context, background, passed, is_done, with_timeout}
use go_health.Go.Http.{fresh}
use go_health.Go.Time.{rfc3339_nano}
use go_health.Core.Status.{status_fail}
use go_health.Core.Check.{Result, zero_result, Check, ComponentStatus, HealthResponse}
use go_health.Core.Check.Encode.Total.{Encodes}
use go_health.Core.Engine.{Engine, default_logger, done}
use go_health.Core.Engine.History.{ready}
use go_health.Core.Log.{LogEntry}
use go_health.Core.Observe.{run_one, observe, check_context}
use go_health.Core.Run.Answer.{run}
use go_health.Core.Run.Timely.{KeepsContract, run_timely}
use go_health.Core.Run.Whole.{Leaves}
use go_health.Adapters.Http.{Handler, Served, livez_handler, readyz_handler, healthz_handler}
use go_health.Adapters.Http.Timely.{Told}
use go_health.Adapters.HttpRouter.{mount}
use go_health.Adapters.HttpRouter.Probed.{mounted_timely}
use go_health.Examples.Shop.{shop, watchdog, alive}
use go_health.Examples.Routed.{RouteTable, with_route, tables, routes}
use go_health.Examples.Served.{watchdog-Leaves}

abbrev gave_up : Result
gave_up = record zero_result { status = status_fail; output = "context deadline exceeded" }

-- It waits for whichever is there of two readings.
abbrev pub wait_for : {A : Type 0} → A → Option ℕ → Option ℕ → Exec A
wait_for a none none s = blocked
wait_for a (some d) none s = returned a (max s d)
wait_for a none (some c) s = returned a (max s c)
wait_for a (some d) (some c) s = returned a (max s (min d c))

abbrev hung : Check
hung = record {
  name = "billing";
  component_type = "component";
  timeout = seconds 1;
  run = some (λ ctx. wait_for (gave_up ∷ []) ctx.deadline ctx.cancelled_at);
}

leb-le : (a b : ℕ) → leb a b ≡ true → a ≤ b
leb-le a b h = ground arith

wait_for-Ends :
    {A : Type 0} (P : A → Type 0) (a : A) (deadline cancelled : Option ℕ) (d : ℕ)
    → P a
    → (passed deadline d || passed cancelled d) ≡ true
    → Ends d 0 P (wait_for a deadline cancelled)
wait_for-Ends P a none none d holds h s = cc
wait_for-Ends P a (some x) none d holds h s = (a, max s x, refl, ground arith, holds)
wait_for-Ends P a none (some y) d holds h s =
    let early = leb-le y d h in (a, max s y, refl, omega arith, holds)
wait_for-Ends P a (some x) (some y) d holds h s = (a, max s (min x y), refl, ground arith, holds)

-- A call that gives up when its context is done.
abbrev pub gives_up : {A : Type 0} → A → Context → Exec A
gives_up a ctx = wait_for a ctx.deadline ctx.cancelled_at

pub gives_up-Honours :
    {A : Type 0} (P : ℕ → A → Type 0) (g : ℕ) (a : A) → ((d : ℕ) → P d a) → Honours P g (gives_up a)
unfolding is_done
gives_up-Honours P g a holds ctx d over =
    Ends-mono d (P d) (gives_up a ctx) (omega arith)
      (wait_for-Ends (P d) a ctx.deadline ctx.cancelled_at d (holds d) over)

wait_for_value :
    {A : Type 0} (a b : A) (deadline cancelled : Option ℕ) (s v : ℕ)
    → wait_for a deadline cancelled s ≡ returned b v
    → b ≡ a
wait_for_value a b none none s v e = cc
wait_for_value a b (some x) none s v e = cc
wait_for_value a b none (some y) s v e = cc
wait_for_value a b (some x) (some y) s v e = cc

pub gives_up_value :
    {A : Type 0} (a b : A) (ctx : Context) (s v : ℕ) → gives_up a ctx s ≡ returned b v → b ≡ a
gives_up_value a b ctx = wait_for_value a b ctx.deadline ctx.cancelled_at

hung-KeepsContract : KeepsContract 2 hung
hung-KeepsContract = gives_up-Honours (λ d. Anything) 2 (gave_up ∷ []) (λ d. tt)

watchdog-KeepsContract : KeepsContract 2 watchdog
watchdog-KeepsContract ctx d over s = (alive ∷ [], s + 2, refl, omega arith, tt)

hung-Leaves : Leaves Encodes background hung
unfolding run_one observe check_context with_timeout
hung-Leaves t u found ran =
    let only : found ≡ observe hung (rfc3339_nano (max t (t + 1000000000))) gave_up ∷ [] = cc in
    rw only (tt, tt)

abbrev slow : Engine
slow = record shop { readyz = hung ∷ watchdog ∷ []; healthz = hung ∷ watchdog ∷ [] }

-- The second goroutine starts later than the first.
abbrev staggered : ℕ → ℕ
staggered i = i

run_timely_example :
    (response : HealthResponse) × (logged : List LogEntry) × (w : ℕ) × (run ready slow staggered
        background 7
      ≡ returned (response, logged) w)
    × (w ≤ max 10 1000000010 + 2)
run_timely_example =
    run_timely ready slow default_logger staggered background 2 10 7 1000000010 refl (omega arith)
      (λ i below. omega arith) (hung-KeepsContract, (watchdog-KeepsContract, tt))
      (inr ((refl, omega arith), ((refl, omega arith), tt)))

abbrev mounted : RouteTable
mounted =
    with_route
      (with_route (with_route (λ m p. none) "GET" "/livez" (livez_handler slow staggered)) "GET"
        "/readyz" (readyz_handler slow staggered))
      "GET" "/healthz" (healthz_handler slow staggered)

slow-mounted : mount tables (λ m p. none) slow staggered routes ≡ done mounted
unfolding mount
slow-mounted = refl

mounted_timely_example :
    (serve : Handler) × (served : Served) × (w : ℕ) × (slots : List (List ComponentStatus))
    × (mounted "GET" "/readyz" ≡ some serve)
    × (serve background (fresh none) 7 ≡ returned served w)
    × (w ≤ max 10 1000000010 + 2)
    × (fork_join staggered (map (run_one background) slow.readyz) 7 ≡ returned slots w)
    × Told served.writer.status slots
mounted_timely_example =
    mounted_timely tables (λ m p. none) mounted slow default_logger staggered routes ready
      background none 2 10 7 1000000010 slow-mounted tt tt tt refl (omega arith)
      (λ i below. omega arith) (hung-KeepsContract, (watchdog-KeepsContract, tt))
      (hung-Leaves, (watchdog-Leaves, tt)) (inr ((refl, omega arith), ((refl, omega arith), tt)))
