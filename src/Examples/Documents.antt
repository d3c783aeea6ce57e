-- ===== src/Examples/Documents.antt =====
-- Documents of responses.
use mathlib.Core.List.{Permᴰ}
use go_health.Prelude.{◌≡◌, ◌∙◌, sym, refl, String, List, [], ◌∷◌, some, ◌↔◌}
use go_health.Go.Context.{background}
use go_health.Go.Json.{Json, encodable, encoded, value_field, sort_keys, items, members}
use go_health.Go.Json as Docs
use go_health.Go.Table.{IsMap}
use go_health.Core.Check.{ComponentStatus, HealthResponse, Check}
use go_health.Core.Check.Encode.{encode, component_fields}
use go_health.Core.Check.Decode.{decode}
use go_health.Core.Check.Decode.RoundTrip.{canonical, decode-encode}
use go_health.Core.Check.Schema.{text, dict, is_dict, exact, IsProper, Shaped, health}
use go_health.Core.Check.Schema.Typed.{encode-Shaped}
use go_health.Core.Check.Schema.Exact.{health_documents}
use go_health.Core.Engine.{
  Engine, done, new_engine, apply_options, register_readiness_check, register_liveness_check,
}
use go_health.Core.Engine.History.{Scope, readiness, liveness, ready, build, register_all}
use go_health.Core.Aggregate.{aggregate}
use go_health.Core.Run.Document.{run_document}
use go_health.Adapters.Http.Endpoints.{handler}
use go_health.Adapters.Http.Isolation.{neither, kept, added, handler_isolated}
use go_health.Checks.DbCheck.{new}
use go_health.Examples.Shop.{watchdog, pinger, shop, at_once, watched, response, logged, history}
use go_health.Examples.Engines.{shop_built}
use go_health.Examples.Runs.{readiness_ran}

-- A gauge with a value and two links, and a reading that is null.
abbrev measured : HealthResponse
measured = record response {
  checks =
      (
        "queue",
        record watched {
          observed_value = encodable (Docs.Json.number "17");
          links = ("runbook", "https://wiki/queue") ∷ ("dashboard", "https://graphs/queue") ∷ [];
        }
            ∷ record watched { observed_value = encodable Docs.Json.null; output = "no reading" }
            ∷ [],
      )
      ∷ ("cache", [])
      ∷ [];
}

abbrev doc : Json
doc = elim (encode measured) [ encoded d ↦ d | _ ↦ Docs.Json.null ]

measured_encoded : encode measured ≡ encoded doc
unfolding encode component_fields value_field sort_keys
measured_encoded = refl

decode-encode_example : decode doc ≡ some (canonical measured)
decode-encode_example = decode-encode measured doc measured_encoded

-- The map of the response, visited from its end.
abbrev visited : List (String × List ComponentStatus)
visited = elim response.checks [ (a ∷ b ∷ c ∷ []) ↦ c ∷ b ∷ a ∷ [] | other ↦ other ]

visited-perm : Permᴰ response.checks visited
visited-perm =
    Permᴰ.trans (Permᴰ.swap refl refl)
      (Permᴰ.trans (Permᴰ.cons refl (Permᴰ.swap refl refl)) (Permᴰ.swap refl refl))

run_document_example :
    IsMap response.checks
    × (aggregate visited ≡ response.status)
    × (encode (record response { checks = visited }) ≡ encode response)
run_document_example =
    run_document ready shop at_once background 0 9 response logged visited readiness_ran
      visited-perm

-- The shop before its storage was checked on the dashboard.
abbrev earlier : Engine
earlier = record shop { healthz = watchdog ∷ new pinger ∷ [] }

abbrev registered : List (Scope × Check)
registered = (liveness, watchdog) ∷ (readiness, new pinger) ∷ []

earlier_built : build "shop" "the shop" [] registered ≡ done earlier
unfolding build new_engine apply_options register_all register_readiness_check
    register_liveness_check new
earlier_built = refl

handler_isolated_example : handler ready earlier ≡ handler ready shop
handler_isolated_example =
    handler_isolated ready "shop" "the shop" [] registered history earlier shop
      (added refl (kept (kept neither))) earlier_built shop_built

-- The same gauge alone, with its map of checks as Go can hold it.
abbrev gauge : HealthResponse
gauge = record measured { checks = elim measured.checks [ (a ∷ b ∷ []) ↦ a ∷ [] | other ↦ other ] }

abbrev gauge_doc : Json
gauge_doc = elim (encode gauge) [ encoded d ↦ d | _ ↦ Docs.Json.null ]

gauge_encoded : encode gauge ≡ encoded gauge_doc
unfolding encode component_fields value_field sort_keys
gauge_encoded = refl

gauge-IsProper : IsProper exact gauge
gauge-IsProper = ((tt, tt), ((λ e. cc, (((λ e. cc, tt), (tt, tt)), (tt, tt))), tt))

gauge-Shaped : Shaped exact health gauge_doc
gauge-Shaped = encode-Shaped exact gauge gauge_doc gauge-IsProper gauge_encoded

-- Two members of one name are no map.
abbrev twice : List (String × Json)
twice = ("a", Docs.Json.str "x") ∷ ("a", Docs.Json.str "y") ∷ []

not-Shaped-twice : ¬ Shaped exact (dict text) (Docs.Json.object (members twice))
unfolding members
not-Shaped-twice (is_dict [] same rising typed) = cc
not-Shaped-twice (is_dict (e ∷ []) same rising typed) = cc
not-Shaped-twice (is_dict (e ∷ f ∷ es) same (_, ne, _) typed) =
    let first : e.0 ≡ "a" = cc in let second : f.0 ≡ "a" = cc in ne (first ∙ sym second)

health_documents_example : Shaped exact health gauge_doc ↔ (
    (answer : HealthResponse) × IsProper exact answer
    × (encode answer ≡ encoded gauge_doc)
    × (decode gauge_doc ≡ some (canonical answer)))
health_documents_example = health_documents gauge_doc
