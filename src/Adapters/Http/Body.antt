-- ===== src/Adapters/Http/Body.antt =====
-- What a client reads in the body of an answer.
use go_health.Prelude.{ℕ, ◌≡◌, refl, sym, ◌∙◌, inl, inr, [], ◌∷◌, none, some, All}
use go_health.Go.Exec.{returned}
use go_health.Go.Context.{Context}
use go_health.Go.Json.{Json, sort_keys}
use go_health.Go.Json.Sorted.{sort_keys-Permᴰ}
use go_health.Go.Http.{document, fresh}
use go_health.Core.Status.{http_status_code}
use go_health.Core.Check.{HealthResponse}
use go_health.Core.Check.Schema.{HasType, health}
use go_health.Core.Check.Schema.Typed.{encode-HasType}
use go_health.Core.Check.Decode.{decode}
use go_health.Core.Check.Decode.RoundTrip.{canonical, canonical_component, decode-encode}
use go_health.Core.Check.Encode.Total.{Encodes}
use go_health.Core.Engine.{Engine}
use go_health.Core.Engine.History.{Probe, checks_of}
use go_health.Core.Aggregate.{aggregate}
use go_health.Core.Aggregate.Order.{aggregate-permᴰ}
use go_health.Core.Aggregate.Statuses.{aggregate-map_entries}
use go_health.Core.Run.Answer.{run-Answered}
use go_health.Core.Run.Whole.{Leaves}
use go_health.Adapters.Http.{Served}
use go_health.Adapters.Http.Sent.{handler-IsSent}
use go_health.Adapters.Http.Endpoints.{handler}

aggregate-canonical :
    (response : HealthResponse) → aggregate (canonical response).checks ≡ aggregate response.checks
aggregate-canonical response =
    aggregate-map_entries canonical_component (λ cs. refl) (sort_keys response.checks)
    ∙ aggregate-permᴰ _ _ (sort_keys-Permᴰ response.checks)

-- Where the values that the checks of a probe observe are nil or encode, the body of an answer that was
-- delivered is one document, of the shape that the struct types and their tags describe. Read back by the tags, it names the service as the engine does, its
-- status is the one that its own entries make, and the code of the answer is the code of that status.
pub handler_body :
    (p : Probe) (e : Engine) (delay : ℕ → ℕ) (ctx : Context) (t u : ℕ) (served : Served)
    → All (Leaves Encodes ctx) (checks_of p e)
    → handler p e delay ctx (fresh none) t ≡ returned served u
    → (doc : Json) × (answer : HealthResponse) × (served.writer.body ≡ document doc ∷ [])
      × HasType health doc
      × (decode doc ≡ some answer)
      × (answer.service_id ≡ e.service_id)
      × (answer.description ≡ e.description)
      × (answer.status ≡ aggregate answer.checks)
      × (served.writer.status ≡ some (http_status_code answer.status))
handler_body p e delay ctx t u served leaves h =
    let (response, logged, doc, ran, encodes, is_sent) =
      handler-IsSent p e delay ctx none t u served leaves h in
    let (_, status, service, description, _) = run-Answered p e delay ctx t u response logged ran in
    (
      doc,
      canonical response,
      elim is_sent.delivered [ inl (_, body, _) ↦ body | inr (err, gone, _, _) ↦ cc ],
      encode-HasType response doc encodes,
      decode-encode response doc encodes,
      service,
      description,
      status ∙ sym (aggregate-canonical response),
      is_sent.status,
    )
