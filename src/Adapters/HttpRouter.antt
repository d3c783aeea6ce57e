-- ===== src/Adapters/HttpRouter.antt =====
-- adapters/httprouter/mount.go: mounting the endpoints on a router of julienschmidt/httprouter.
pub mod Mounted
pub mod Probed
use go_health.Prelude.{ℕ, ◌≡◌, ◌≢◌, String, Option, none, some}
use go_health.Core.Engine.{Engine, Attempt, done, panics}
use go_health.Adapters.Http.{Handler, livez_handler, readyz_handler, healthz_handler}

-- The third-party router, with what its documentation says: `Handler` panics on a path that it
-- cannot add, and "a request can only match exactly one or no route".
pub record RouterLibrary : Type 1 where
  pub Router : Type 0
  -- router.Handler(method, path, handler)
  pub handle : Router → String → String → Handler → Attempt Router
  -- the handler that serves a request for a method and a path
  pub serves : Router → String → String → Option Handler
  -- a path with no parameter
  pub IsStatic : String → Type 0
  -- a static path that was added is served by its handler
  pub serves-handle :
      (r r' : Router) (method path : String) (h : Handler)
      → IsStatic path
      → handle r method path h ≡ done r'
      → serves r' method path ≡ some h
  -- what was served before stays as it is
  pub serves-handle_other :
      (r r' : Router) (method path : String) (h : Handler) (other_method other : String)
      (before : Handler)
      → handle r method path h ≡ done r'
      → serves r other_method other ≡ some before
      → serves r' other_method other ≡ some before

pub record Routes : Type 0 where
  pub livez : String
  pub readyz : String
  pub healthz : String

-- http.MethodGet
abbrev pub method_get : String
method_get = "GET"

infixl 5 ◌>>=◌
abbrev pub ◌>>=◌ {ℓ} : {A B : Type ℓ} → Attempt A → (A → Attempt B) → Attempt B
done a >>= f = f a
panics message >>= f = panics message

module _ (library : RouterLibrary) where
  open library use {Router, handle}

  unfoldable pub mount : Router → Engine → (ℕ → ℕ) → Routes → Attempt Router
  mount router eng delay routes = do
    first ← handle router method_get routes.livez (livez_handler eng delay)
    second ← handle first method_get routes.readyz (readyz_handler eng delay)
    handle second method_get routes.healthz (healthz_handler eng delay)
