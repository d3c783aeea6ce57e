-- ===== src/Examples/Routed.antt =====
-- The endpoints of the shop on a router that keeps its routes in a function.
use go_health.Prelude.{
  ◌≡◌, refl, ◌∙◌, ap, sym, ◌&&◌, String, Option, none, some, ◌==◌, if◌then◌else◌, Bool-cases, inl,
  inr, test_self, String-cases, test_of_ne,
}
use go_health.Core.Engine.{Attempt, done, panics}
use go_health.Adapters.Http.{Handler, livez_handler, readyz_handler, healthz_handler}
use go_health.Adapters.HttpRouter.{RouterLibrary, Routes, mount}
use go_health.Adapters.HttpRouter.Mounted.{mount-keeps}
use go_health.Examples.Shop.{shop, at_once}

abbrev pub RouteTable : Type 0
RouteTable = String → String → Option Handler

abbrev pub with_route : RouteTable → String → String → Handler → RouteTable
with_route r method path h m p = if m == method && p == path then some h else r m p

abbrev pub add_route : Option Handler → RouteTable → String → String → Handler → Attempt RouteTable
add_route none r method path h = done (with_route r method path h)
add_route (some _) r method path h = panics "a handle is already registered for the path"

pub add_route-eq_done :
    (before : Option Handler) (r r' : RouteTable) (method path : String) (h : Handler)
    → add_route before r method path h ≡ done r'
    → (before ≡ none) × (with_route r method path h ≡ r')
add_route-eq_done none r r' method path h e = (refl, cc)
add_route-eq_done (some _) r r' method path h e = cc

pub with_route_self :
    (r : RouteTable) (method path : String) (h : Handler)
    → with_route r method path h method path ≡ some h
with_route_self r method path h = rw (test_self method, test_self path)

pub with_route_other :
    (r : RouteTable) (method path : String) (h : Handler) (m p : String) (before : Handler)
    → r method path ≡ none
    → r m p ≡ some before
    → with_route r method path h m p ≡ some before
with_route_other r method path h m p before free was = elim (String-cases m method) [
  | inr other ↦ rw (test_of_ne m method other) was
  | inl same_method ↦ elim (String-cases p path) [
    | inr other ↦
        rw (test_of_ne p path other)
          (elim (Bool-cases (m == method)) [ inl b ↦ rw b was | inr b ↦ rw b was ])
    | inl same ↦ cc
  ]
]

abbrev pub tables : RouterLibrary
tables = record {
  Router = RouteTable;
  handle = λ r method path h. add_route (r method path) r method path h;
  serves = λ r method path. r method path;
  IsStatic = λ path. Unit;
  serves-handle = λ r r' method path h _ e.
      let (_, same) = add_route-eq_done (r method path) r r' method path h e in
      ap (λ (t : RouteTable). t method path) (sym same) ∙ with_route_self r method path h;
  serves-handle_other = λ r r' method path h m p before e was.
      let (free, same) = add_route-eq_done (r method path) r r' method path h e in
      ap (λ (t : RouteTable). t m p) (sym same)
      ∙ with_route_other r method path h m p before free was;
}

abbrev pub routes : Routes
routes = record { livez = "/livez"; readyz = "/readyz"; healthz = "/healthz" }

-- A router with a page of its own.
abbrev served_before : RouteTable
served_before = with_route (λ m p. none) "GET" "/" (livez_handler shop at_once)

abbrev mounted : RouteTable
mounted =
    with_route
      (with_route (with_route served_before "GET" "/livez" (livez_handler shop at_once)) "GET"
        "/readyz" (readyz_handler shop at_once))
      "GET" "/healthz" (healthz_handler shop at_once)

shop-mounted : mount tables served_before shop at_once routes ≡ done mounted
unfolding mount
shop-mounted = refl

root_kept : mounted "GET" "/" ≡ some (livez_handler shop at_once)
root_kept =
    mount-keeps tables served_before mounted shop at_once routes shop-mounted "GET" "/"
      (livez_handler shop at_once) refl
