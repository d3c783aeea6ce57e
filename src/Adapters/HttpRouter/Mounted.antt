-- ===== src/Adapters/HttpRouter/Mounted.antt =====
-- What a router serves once the endpoints are mounted.
use go_health.Prelude.{ℕ, ◌≡◌, refl, String, some}
use go_health.Core.Engine.{Engine, Attempt, done, panics}
use go_health.Adapters.Http.{Handler, livez_handler, readyz_handler, healthz_handler}
use go_health.Adapters.HttpRouter.{RouterLibrary, Routes, method_get, ◌>>=◌, mount}

>>=-eq-done {ℓ} :
    {A B : Type ℓ} (m : Attempt A) (f : A → Attempt B) {b : B}
    → (m >>= f) ≡ done b
    → (a : A) × (m ≡ done a) × (f a ≡ done b)
>>=-eq-done (done a) f h = (a, refl, h)
>>=-eq-done (panics message) f h = cc

module _ (library : RouterLibrary) where
  open library use {Router, handle, serves, IsStatic, serves-handle, serves-handle_other}

  module _ (router mounted : Router) (eng : Engine) (delay : ℕ → ℕ) (routes : Routes)
      (h : mount library router eng delay routes ≡ done mounted) where
    -- What the three calls of `Handler` returned in turn.
    record Steps : Type 0 where
      first : Router
      second : Router
      added_livez : handle router method_get routes.livez (livez_handler eng delay) ≡ done first
      added_readyz : handle first method_get routes.readyz (readyz_handler eng delay) ≡ done second
      added_healthz :
          handle second method_get routes.healthz (healthz_handler eng delay) ≡ done mounted

    mount-Steps : Steps
    unfolding mount
    mount-Steps =
        let (first, livez, rest) =
          >>=-eq-done (handle router method_get routes.livez (livez_handler eng delay)) _ h in
        let (second, readyz, healthz) =
          >>=-eq-done (handle first method_get routes.readyz (readyz_handler eng delay)) _ rest in
        record {
          first = first;
          second = second;
          added_livez = livez;
          added_readyz = readyz;
          added_healthz = healthz;
        }

    -- When the endpoints were mounted on static paths, a GET of each path is served by the handler of
    -- its endpoint.
    pub mount-serves :
        IsStatic routes.livez
        → IsStatic routes.readyz
        → IsStatic routes.healthz
        → (serves mounted method_get routes.livez ≡ some (livez_handler eng delay))
          × (serves mounted method_get routes.readyz ≡ some (readyz_handler eng delay))
          × (serves mounted method_get routes.healthz ≡ some (healthz_handler eng delay))
    mount-serves static_livez static_readyz static_healthz =
        let s = mount-Steps in
        let livez = serves-handle _ _ _ _ _ static_livez s.added_livez in
        let readyz = serves-handle _ _ _ _ _ static_readyz s.added_readyz in
        (
          serves-handle_other _ _ _ _ _ _ _ _ s.added_healthz
              (serves-handle_other _ _ _ _ _ _ _ _ s.added_readyz livez),
          serves-handle_other _ _ _ _ _ _ _ _ s.added_healthz readyz,
          serves-handle _ _ _ _ _ static_healthz s.added_healthz,
        )

    -- Mounting takes no route away: what the router served before is served still.
    pub mount-keeps :
        (method path : String) (before : Handler)
        → serves router method path ≡ some before
        → serves mounted method path ≡ some before
    mount-keeps method path before was =
        let s = mount-Steps in
        serves-handle_other _ _ _ _ _ _ _ _ s.added_healthz (
          serves-handle_other _ _ _ _ _ _ _ _ s.added_readyz
            (serves-handle_other _ _ _ _ _ _ _ _ s.added_livez was))
