-- ===== src/Examples/Turns.antt =====
-- The shop's readiness probe, by goroutines and by a loop.
use go_health.Prelude.{ℕ, ◌+◌, ◌≡◌, refl, List, [], ◌∷◌, All, some, map, ne_of_test, none}
use go_health.Go.Context.{background}
use go_health.Prelude.Families.{tabulate}
use go_health.Go.Exec.{returned}
use go_health.Go.Http.{fresh}
use go_health.Core.Aggregate.{aggregate}
use go_health.Core.Aggregate.Statuses.{map_entries}
use go_health.Core.Run.{collect}
use go_health.Core.Run.Erased.{erase}
use go_health.Core.Run.Slots.{initial}
use go_health.Core.Run.Goroutines.Sequential.{joined-in_turn}
use go_health.Examples.Goroutines.{over}
use go_health.Core.Check.{Check, ComponentStatus}
use go_health.Core.Engine.{Engine, default_logger, done}
use go_health.Adapters.Http.{Served}
use go_health.Adapters.Http.Endpoints.{handler}
use go_health.Adapters.Http.Steady.{AreAlike, handler-AreAlike}
use go_health.Examples.Served.{watchdog-Leaves, database-Leaves}
use go_health.Core.Engine.Reordered.{IsDistinct}
use go_health.Core.Run.Reordered.{viewed}
use go_health.Core.Run.AnyOrder.{viewed-run}
use mathlib.Core.List.{Permᴰ}
use go_health.Core.Engine.History.{Scope, health, readiness, liveness, Probe, ready, build, IsFree}
use go_health.Core.Run.Answer.{run}
use go_health.Core.Run.InTurn.{in_turn, run_in_turn, IsSteady}
use go_health.Core.Run.InTurn.Seen.{seen, seen-run}
use go_health.Checks.DbCheck.{new, verdict}
use go_health.Examples.Shop.{shop, alive, storage, watchdog, pinger}

watchdog-IsSteady : IsSteady background watchdog
watchdog-IsSteady = (alive ∷ [], λ t. (t + 2, refl))

database-IsSteady : IsSteady background (new pinger)
unfolding new
database-IsSteady = (verdict (some "connection refused"), λ t. (t + 9, refl))

seen-run_example :
    seen (run ready shop (λ i. 5) background 0) ≡ seen (run_in_turn ready shop background 70)
seen-run_example =
    seen-run ready shop background (λ i. 5) 0 70 (watchdog-IsSteady, (database-IsSteady, tt))

abbrev sooner : List (Scope × Check)
sooner = (health, storage) ∷ (liveness, watchdog) ∷ (readiness, new pinger) ∷ []

abbrev later : List (Scope × Check)
later = (readiness, new pinger) ∷ (liveness, watchdog) ∷ (health, storage) ∷ []

storage-IsSteady : IsSteady background storage
storage-IsSteady = (_, λ t. (t + 4, refl))

sooner-IsFree : All IsFree sooner
unfolding new
sooner-IsFree = (ne_of_test _ _ refl, (ne_of_test _ _ refl, (ne_of_test _ _ refl, tt)))

sooner-IsDistinct : IsDistinct (map (λ r. r.1) sooner)
unfolding new
sooner-IsDistinct =
    ((ne_of_test _ _ refl, (ne_of_test _ _ refl, tt)), ((ne_of_test _ _ refl, tt), (tt, tt)))

viewed-run_example :
    (e : Engine) × (e' : Engine) × (build "shop" "the shop" [] sooner ≡ done e)
    × (build "shop" "the shop" [] later ≡ done e')
    × ((p : Probe) (delay delay' : ℕ → ℕ) (t t' : ℕ)
        → viewed (run p e delay background t) ≡ viewed (run p e' delay' background t'))
viewed-run_example =
    viewed-run "shop" "the shop" [] sooner later background sooner-IsFree sooner-IsDistinct
      (storage-IsSteady, (watchdog-IsSteady, (database-IsSteady, tt)))
      (Permᴰ.trans (Permᴰ.swap refl refl)
        (Permᴰ.trans (Permᴰ.cons refl (Permᴰ.swap refl refl)) (Permᴰ.swap refl refl)))

joined-in_turn_example :
    (slots : List (List ComponentStatus)) × (u : ℕ) × (in_turn background shop.readyz 70
      ≡ returned slots u)
    × (map_entries erase (collect shop.readyz (tabulate 2 over.0.slot) (initial 0))
        ≡ map_entries erase (collect shop.readyz slots (initial 70)))
    × (aggregate (collect shop.readyz (tabulate 2 over.0.slot) (initial 0))
        ≡ aggregate (collect shop.readyz slots (initial 70)))
joined-in_turn_example =
    joined-in_turn background 0 70 shop.readyz over.0 (watchdog-IsSteady, (database-IsSteady, tt))
      over.1 refl

handler-AreAlike_example :
    (served : Served) × (u : ℕ) × (served' : Served) × (u' : ℕ) × (handler ready shop
        (λ i. 0)
        background
        (fresh none)
        0
      ≡ returned served u)
    × (handler ready shop (λ i. 5) background (fresh none) 90 ≡ returned served' u')
    × AreAlike served served'
handler-AreAlike_example =
    handler-AreAlike ready shop background (watchdog-IsSteady, (database-IsSteady, tt))
      (watchdog-Leaves, (database-Leaves, tt)) default_logger (λ i. 0) (λ i. 5) 0 90 refl
