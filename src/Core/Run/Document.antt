-- ===== src/Core/Run/Document.antt =====
-- core/engine.go: the map of a response as a map, with each name once and no order.
use mathlib.Core.List.{Permᴰ}
use go_health.Prelude.{ℕ, ◌≡◌, sym, ◌∙◌, String, List, [], ◌∷◌}
use mathlib.Core.Path.{subst}
use go_health.Go.Exec.{returned}
use go_health.Go.Context.{Context}
use go_health.Go.Table.{IsMap, assign-IsMap}
use go_health.Go.Json.Sorted.{sort_keys-perm}
use go_health.Core.Check.{Check, ComponentStatus, HealthResponse}
use go_health.Core.Check.Encode.{encode}
use go_health.Core.Engine.{Engine}
use go_health.Core.Engine.History.{Probe, checks_of}
use go_health.Core.Aggregate.{aggregate}
use go_health.Core.Aggregate.Order.{aggregate-permᴰ}
use go_health.Core.Log.{LogEntry}
use go_health.Core.Run.{collect_one, collect, run_checks}
use go_health.Core.Run.Slots.{initial, run_checks-Ran}
use go_health.Core.Run.Answer.{run, run-Answered}

collect_one-IsMap :
    (c : Check) (found : List ComponentStatus) (out : List (String × List ComponentStatus))
    → IsMap out
    → IsMap (collect_one c found out)
unfolding collect_one
collect_one-IsMap c [] out h = h
collect_one-IsMap c (r ∷ rs) out h = assign-IsMap c.name _ out h

collect-IsMap :
    (checks : List Check) (slots : List (List ComponentStatus))
    (out : List (String × List ComponentStatus))
    → IsMap out
    → IsMap (collect checks slots out)
unfolding collect
collect-IsMap [] slots out h = h
collect-IsMap (c ∷ checks) [] out h = h
collect-IsMap (c ∷ checks) (found ∷ slots) out h =
    collect-IsMap checks slots (collect_one c found out) (collect_one-IsMap c found out h)

-- No name stands twice in what `runChecks` returns.
pub run_checks-IsMap :
    (delay : ℕ → ℕ) (ctx : Context) (checks : List Check) (t u : ℕ)
    (out : List (String × List ComponentStatus))
    → run_checks delay ctx checks t ≡ returned out u
    → IsMap out
run_checks-IsMap delay ctx checks t u out h =
    let r = run_checks-Ran delay ctx checks t u out h in
    subst IsMap (sym r.collected) (collect-IsMap checks r.slots (initial t) (tt, tt))

encode-checks :
    (response : HealthResponse) (visited : List (String × List ComponentStatus))
    → Permᴰ response.checks visited
    → IsMap response.checks
    → encode (record response { checks = visited }) ≡ encode response
unfolding encode
encode-checks response visited d h = rw (sort_keys-perm d h)

-- In the response of a Run method each name stands once, and in whatever order its map is visited,
-- the status is the same, and so is the document that the encoder writes.
pub run_document :
    (p : Probe) (e : Engine) (delay : ℕ → ℕ) (ctx : Context) (t u : ℕ) (response : HealthResponse)
    (logged : List LogEntry) (visited : List (String × List ComponentStatus))
    → run p e delay ctx t ≡ returned (response, logged) u
    → Permᴰ response.checks visited
    → IsMap response.checks
      × (aggregate visited ≡ response.status)
      × (encode (record response { checks = visited }) ≡ encode response)
run_document p e delay ctx t u response logged visited h d =
    let (ran, status, _, _, _) = run-Answered p e delay ctx t u response logged h in
    let whole = run_checks-IsMap delay ctx (checks_of p e) t u response.checks ran in
    (
      whole,
      sym (aggregate-permᴰ response.checks visited d) ∙ sym status,
      encode-checks response visited d whole,
    )
