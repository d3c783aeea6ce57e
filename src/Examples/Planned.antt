-- ===== src/Examples/Planned.antt =====
-- The service of Examples/Service.antt, where the database and one shard are down.
use go_health.Prelude.{
  ℕ, ◌+◌, ◌*◌, ◌≤◌, ◌≡◌, ◌⊎◌, refl, true, false, inl, inr, String, [], ◌∷◌, Option, none, some,
  arith, ltb, if◌then◌else◌,
}
use go_health.Go.Duration.{add, seconds}
use go_health.Go.Exec.{returned, takes}
use go_health.Go.Context.{background}
use go_health.Go.Http.{fresh}
use go_health.Core.Status.{status_pass, status_fail}
use go_health.Core.Engine.{default_logger}
use go_health.Core.Engine.History.{health, readiness, liveness, ready}
use go_health.Adapters.Http.{Handler, Served}
use go_health.Checks.Health.{Window, Answers, Errs}
use go_health.Checks.HttpCheck as Http
use go_health.Checks.TcpCheck as Tcp
use go_health.Checks.TcpCheck.Health.{Settles}
use go_health.Checks.HttpCheck.Health.{Settles as HttpSettles, Serves}
use go_health.Checks.RedisCheck.Health.{ShardsUp}
use go_health.Checks.Shown.{Overdue}
use go_health.Checks.Watched.{database, bucket, address, endpoint, node, cluster, tuned}
use go_health.Checks.Service.Plan.{Plan, is_down, Realises}
use go_health.Checks.Service.Verdict.{Says, down_entry, served_in, service_verdict}
use go_health.Examples.Shop.{at_once}
use go_health.Examples.Routed.{tables, routes}
use go_health.Examples.Timed.{gives_up_value}
use go_health.Examples.Service.{
  silent, store, line, page, browser, cache, lost, shards, sharded, history, engine, mounted,
  history-ReadyMade, engine_built, engine-mounted,
}

takes_value :
    {A : Type 0} (elapsed : ℕ) (a b : A) (s v : ℕ) → takes elapsed a s ≡ returned b v → b ≡ a
takes_value elapsed a b s v e = cc

abbrev plan : Plan
plan =
    (readiness, false)
    ∷ (health, true)
    ∷ (readiness, true)
    ∷ (readiness, true)
    ∷ (liveness, true)
    ∷ (readiness, false)
    ∷ []

-- The request is served from the reading 7.
abbrev window : Window
window = served_in 7 7 50

loaded :
    (s : ℕ) (err : Option String)
    → 7 ≤ s
    → (if ltb s 6 then some "LOADING" else none) ≡ err
    → err ≡ none
loaded s err after same = ground arith

cache_up : Answers window true (Errs true) cache.ping_err
cache_up ctx s err v after e live =
    let answer : (if ltb s 6 then some "LOADING" else none) ≡ err = cc in loaded s err after answer

takes_forward :
    {A : Type 0} (elapsed : ℕ) (a : A) (s : ℕ) (b : A) (v : ℕ)
    → takes elapsed a s ≡ returned b v
    → s ≤ v
takes_forward elapsed a s b v e = let end : s + elapsed ≡ v = cc in omega arith

line_up : Tcp.Dialed
line_up = Tcp.connected (record { close = takes 1 none })

line-Settles : (dialed : Tcp.Dialed) → dialed ≡ line_up → Settles dialed
unfolding line_up
line-Settles dialed same = rw same (takes_forward {A = Option String} 1 none)

page-Settles : (outcome : Http.Done) → outcome ≡ Http.responded page → HttpSettles outcome
page-Settles outcome same =
    rw same (takes_forward {A = Option String} 3 none, takes_forward {A = Option String} 2 none)

page-Serves : (outcome : Http.Done) → outcome ≡ Http.responded page → Serves true outcome
page-Serves outcome same = (page, same, refl)

lost_down : Answers window false (Errs false) lost.ping_err
lost_down ctx s err v _ e _ = ("i/o timeout", gives_up_value (some "i/o timeout") err ctx s v e)

shards_down : Answers window false (ShardsUp window false) sharded.for_each_shard
shards_down ctx s visit v _ e _ =
    let same = takes_value 1 shards visit s v e in rw same (inl (inr (inl lost_down)))

plan-Realises : Realises window plan history
unfolding line_up
plan-Realises = (
  refl,
  tuned
      (database silent (λ ctx s err v _ e _. (
        "context deadline exceeded",
        gives_up_value (some "context deadline exceeded") err ctx s v e,
      )))
      "database:orders" (seconds 5),
  (
    refl,
    bucket store "orders" (λ ctx s err v _ e _. takes_value 40 none err s v e),
    (
      refl,
      address line "mail:25"
          (λ ctx s dialed v _ e _.
            (record { close = takes 1 none }, takes_value 6 line_up dialed s v e))
          (λ ctx s dialed v e. (
            line-Settles dialed (takes_value 6 line_up dialed s v e),
            takes_forward 6 line_up s dialed v e,
          )),
      (
        refl,
        endpoint (λ url. none) browser "http://api/"
            (
              refl,
              λ ctx s outcome v _ e _.
                  page-Serves outcome (takes_value 10 (Http.responded page) outcome s v e),
            )
            (λ ctx s outcome v e. (
              page-Settles outcome (takes_value 10 (Http.responded page) outcome s v e),
              takes_forward 10 (Http.responded page) s outcome v e,
            )),
        (
          refl,
          node cache cache_up,
          (
            refl,
            cluster sharded shards_down
                (λ ctx s visit v e. (tt, takes_forward 1 shards s visit v e)),
            tt,
          ),
        ),
      ),
    ),
  ),
)

service_verdict_example :
    (serve : Handler) × (served : Served) × (w : ℕ) × (mounted "GET" "/readyz" ≡ some serve)
    × (serve background (fresh none) 7 ≡ returned served w)
    × (w ≤ add 7 (seconds 5) + 3 * 50)
    × (((is_down ready plan ≡ true)
          × Says status_fail 503 (down_entry default_logger ready engine ∷ []) none served)
        ⊎ ((is_down ready plan ≡ false)
            × (Says status_pass 200 [] none served ⊎ Overdue background at_once 7 w engine.readyz)))
service_verdict_example =
    service_verdict tables (λ m p. none) mounted routes "orders" "" [] plan history engine
      default_logger ready at_once background none 50 7 7 engine_built history-ReadyMade
      plan-Realises engine-mounted tt tt tt refl (omega arith) (λ i below. omega arith)
