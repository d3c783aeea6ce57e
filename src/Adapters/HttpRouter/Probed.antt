-- ===== src/Adapters/HttpRouter/Probed.antt =====
-- The probes of a service, from the router to the checks.
use go_health.Prelude.{
  ℕ, max, ◌+◌, ◌≤◌, ◌<◌, ◌≡◌, ◌⊎◌, String, List, Option, some, map, length, All, true,
}
use go_health.Go.Exec.{returned, fork_join}
use go_health.Go.Context.{Context, is_done}
use go_health.Go.Http.{fresh}
use go_health.Core.Check.{ComponentStatus}
use go_health.Core.Check.Encode.Total.{Encodes}
use go_health.Core.Engine.{Engine, Logger, done}
use go_health.Core.Engine.History.{Probe, live, ready, dashboard, checks_of}
use go_health.Core.Observe.{run_one}
use go_health.Core.Run.Timely.{KeepsContract, TimesOut}
use go_health.Core.Run.Whole.{Leaves}
use go_health.Adapters.Http.{Served, Handler}
use go_health.Adapters.Http.Endpoints.{handler}
use go_health.Adapters.Http.Timely.{Told, handler_timely}
use go_health.Adapters.HttpRouter.{RouterLibrary, Routes, method_get, mount}
use go_health.Adapters.HttpRouter.Mounted.{mount-serves}

abbrev pub path_of : Probe → Routes → String
path_of live routes = routes.livez
path_of ready routes = routes.readyz
path_of dashboard routes = routes.healthz

module _ (library : RouterLibrary) where
  open library use {Router, serves, IsStatic}

  pub serves-handler :
      (router mounted : Router) (e : Engine) (delay : ℕ → ℕ) (routes : Routes) (p : Probe)
      → mount library router e delay routes ≡ done mounted
      → IsStatic routes.livez
      → IsStatic routes.readyz
      → IsStatic routes.healthz
      → serves mounted method_get (path_of p routes) ≡ some (handler p e delay)
  serves-handler router mounted e delay routes p h s s' s'' =
      let (livez, readyz, healthz) =
        mount-serves library router mounted e delay routes h s s' s'' in
      elim p as (λ q. serves mounted method_get (path_of q routes) ≡ some (handler q e delay)) [
        | live ↦ livez
        | ready ↦ readyz
        | dashboard ↦ healthz
      ]

  -- The endpoints of an engine with a logger were mounted on static paths; its checks keep the contract
  -- of Run, and the values they observe are nil or encode. Then a GET of the path of a probe is
  -- served, and the answer is there no later than the grace of the checks after the last goroutine
  -- has started, or after a reading by which the context of the request is done, or by which each
  -- check of the probe has a timeout that is over. The code is 503, and some observation of a check of
  -- the probe fails, or 200, and none does.
  pub mounted_timely :
      (router mounted : Router) (e : Engine) (l : Logger) (delay : ℕ → ℕ) (routes : Routes)
      (p : Probe) (ctx : Context) (broken : Option String) (grace latest t u : ℕ)
      → mount library router e delay routes ≡ done mounted
      → IsStatic routes.livez
      → IsStatic routes.readyz
      → IsStatic routes.healthz
      → e.logger ≡ some l
      → t ≤ latest
      → ((i : ℕ) → i < length (checks_of p e) → t + delay i ≤ latest)
      → All (KeepsContract grace) (checks_of p e)
      → All (Leaves Encodes ctx) (checks_of p e)
      → (is_done ctx u ≡ true) ⊎ All (TimesOut latest u) (checks_of p e)
      → (serve : Handler) × (served : Served) × (w : ℕ) × (slots : List (List ComponentStatus))
        × (serves mounted method_get (path_of p routes) ≡ some serve)
        × (serve ctx (fresh broken) t ≡ returned served w)
        × (w ≤ max latest u + grace)
        × (fork_join delay (map (run_one ctx) (checks_of p e)) t ≡ returned slots w)
        × Told served.writer.status slots
  mounted_timely router mounted e l delay routes p ctx broken grace latest t u h s s' s'' has before
        starts honours leaves due =
      let (served, w, slots, ran, early, ended, told) =
        handler_timely p e l delay ctx broken grace latest t u has before starts honours leaves
          due in
      (
        handler p e delay,
        served,
        w,
        slots,
        serves-handler router mounted e delay routes p h s s' s'',
        ran,
        early,
        ended,
        told,
      )
