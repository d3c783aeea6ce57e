-- ===== src/Examples/Served.antt =====
-- The endpoints of the shop on the wire and on a router.
use go_health.Prelude.{
  String, ◌≡◌, refl, List, [], ◌∷◌, none, some, map, ◌⊎◌, ◌↔◌, inl, inr, ◌+◌, All,
}
use go_health.Go.Exec.{returned, fork_join}
use go_health.Go.Context.{background}
use go_health.Go.Json.{
  Json, Value, encoded, failed, unsupported, panicking, value_field, sort_keys, items, members,
}
use go_health.Go.Json as Docs
use go_health.Go.Http.{fresh, document}
use go_health.Core.Status.{http_status_code, status_fail}
use go_health.Core.Aggregate.{aggregate}
use go_health.Core.Check.Schema.{HasType, health}
use go_health.Core.Check.Decode.{decode}
use go_health.Adapters.Http.Body.{handler_body}
use go_health.Core.Check.Encode.Total.{Encodes, encode-encoded}
use go_health.Core.Run.Verdict.{Observed}
use go_health.Core.Run.Whole.{Leaves}
use go_health.Adapters.Http.Encodable.{handler_answers}
use go_health.Go.Time.{rfc3339_nano}
use go_health.Core.Check.{zero_result, ComponentStatus, HealthResponse}
use go_health.Core.Check.Encode.{encode, component_fields}
use go_health.Core.Engine.History.{ready}
use go_health.Core.Log.{LogEntry}
use go_health.Core.Run.Answer.{run}
use go_health.Core.Observe.{run_one, observe}
use go_health.Adapters.Http.{Served, write, readyz_handler}
use go_health.Adapters.Http.Reply.{Replied, write-Replied}
use go_health.Adapters.Http.Endpoints.{handler, Wire, handler-Wire, handler_unavailable}
use go_health.Examples.Shop.{
  watchdog, alive, shop, at_once, response, logged, watched, history, pinger,
}
use go_health.Examples.Engines.{shop_built}
use go_health.Checks.DbCheck.{new}
use go_health.Examples.Runs.{readiness_ran, database_down}

abbrev doc : Json
doc = elim (encode response) [ encoded d ↦ d | _ ↦ Docs.Json.null ]

response_encoded : encode response ≡ encoded doc
unfolding encode component_fields value_field sort_keys
response_encoded = refl

-- A response whose observed value is `value`.
abbrev measured : Value → HealthResponse
measured value = record response {
  checks = ("app:queue", record watched { observed_value = value } ∷ []) ∷ [];
}

channel_refused :
    encode (measured (unsupported "json: unsupported type: chan int"))
    ≡ failed "json: unsupported type: chan int"
unfolding encode component_fields value_field sort_keys
channel_refused = refl

method_panics : encode (measured (panicking "no value")) ≡ Docs.panicked "no value"
unfolding encode component_fields value_field sort_keys
method_panics = refl

write-Replied_example :
    Replied
      (measured (unsupported "json: unsupported type: chan int"))
      logged
      (some "broken pipe")
      9
write-Replied_example =
    write-Replied (measured (unsupported "json: unsupported type: chan int")) logged
      (some "broken pipe") 9

abbrev served : Served
served = elim (write response logged (fresh none) 9) [
  | returned s _ ↦ s
  | _ ↦ record { writer = fresh none; logged = []; warnings = [] }
]

readyz_served : handler ready shop at_once background (fresh none) 0 ≡ returned served 9
unfolding readyz_handler write encode sort_keys component_fields value_field
readyz_served = rw readiness_ran refl

handler-Wire_example :
    (slots : List (List ComponentStatus)) × (answer : HealthResponse) × (written : List LogEntry)
    × (run ready shop at_once background 0 ≡ returned (answer, written) 9)
    × (fork_join at_once (map (run_one background) shop.readyz) 0 ≡ returned slots 9)
    × Wire slots answer served.writer.status
handler-Wire_example = handler-Wire ready shop at_once background none 0 9 served readyz_served

handler_unavailable_example :
    (answer : HealthResponse) × (written : List LogEntry) × (run ready shop at_once background 0
      ≡ returned (answer, written) 9)
    × ((served.writer.status ≡ some 503)
        ⊎ ((served.writer.status ≡ some 500) × ((err : String) × (encode answer ≡ failed err))))
handler_unavailable_example =
    handler_unavailable background (new pinger) database_down ready "shop" "the shop" [] history
      shop at_once none 0 9 served shop_built (inr (inr (inl (refl, refl)))) readyz_served

encode-encoded_example :
    ((d : Json) × (encode (measured (unsupported "json: unsupported type: chan int")) ≡ encoded d))
    ↔ All (λ e. All Encodes e.1) (measured (unsupported "json: unsupported type: chan int")).checks
encode-encoded_example = encode-encoded (measured (unsupported "json: unsupported type: chan int"))

pub watchdog-Leaves : Leaves Encodes background watchdog
unfolding run_one observe
watchdog-Leaves t u found ran =
    let only : found ≡ observe watchdog (rfc3339_nano (t + 2)) alive ∷ [] = cc in rw only (tt, tt)

pub database-Leaves : Leaves Encodes background (new pinger)
unfolding run_one observe new
database-Leaves t u found ran =
    let only : found
        ≡ observe (new pinger) (rfc3339_nano (t + 9))
            (record zero_result { status = status_fail; output = "connection refused" })
          ∷ [] =
      cc in
    rw only (tt, tt)

answer_told :
    (slots : List (List ComponentStatus)) × (fork_join at_once
        (map (run_one background) shop.readyz)
        0
      ≡ returned slots 9)
    × (((served.writer.status ≡ some 503) × Observed status_fail slots)
        ⊎ ((served.writer.status ≡ some 200) × ¬ Observed status_fail slots))
answer_told =
    handler_answers ready shop at_once background none 0 9 served
      (watchdog-Leaves, (database-Leaves, tt)) readyz_served

handler_body_example :
    (body : Json) × (answer : HealthResponse) × (served.writer.body ≡ document body ∷ [])
    × HasType health body
    × (decode body ≡ some answer)
    × (answer.service_id ≡ "shop")
    × (answer.description ≡ "the shop")
    × (answer.status ≡ aggregate answer.checks)
    × (served.writer.status ≡ some (http_status_code answer.status))
handler_body_example =
    handler_body ready shop at_once background 0 9 served (watchdog-Leaves, (database-Leaves, tt))
      readyz_served
