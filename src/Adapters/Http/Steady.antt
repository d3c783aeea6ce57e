-- ===== src/Adapters/Http/Steady.antt =====
-- adapters/http/handlers.go: two answers of one endpoint, where the checks say the same each time.
use go_health.Prelude.{
  ℕ, ◌≡◌, refl, sym, ap, ◌∙◌, inl, inr, String, List, [], ◌∷◌, none, some, map, All,
}
use go_health.Go.Exec.{returned}
use go_health.Go.Context.{Context}
use go_health.Go.Json.{Json, sort_keys}
use go_health.Go.Json.Sorted.{sort_keys-map}
use go_health.Go.Http.{document, fresh}
use go_health.Core.Status.{http_status_code}
use go_health.Core.Check.{ComponentStatus, HealthResponse}
use go_health.Core.Check.Decode.{decode}
use go_health.Core.Check.Decode.RoundTrip.{canonical, canonical_component, decode-encode}
use go_health.Core.Check.Encode.Total.{Encodes}
use go_health.Core.Engine.{Engine, Logger}
use go_health.Core.Engine.History.{Probe, checks_of}
use go_health.Core.Aggregate.Statuses.{map_entries}
use go_health.Core.Log.{LogEntry}
use go_health.Core.Run.Erased.{erase}
use go_health.Core.Run.InTurn.{IsSteady, fork_join_steady}
use go_health.Core.Run.InTurn.Seen.{seen, seen-run}
use go_health.Core.Run.Whole.{Leaves}
use go_health.Adapters.Http.{Served}
use go_health.Adapters.Http.Encodable.{handler_total}
use go_health.Adapters.Http.Endpoints.{handler, returned-inv}
use go_health.Adapters.Http.Sent.{handler-IsSent}

module _ (f : ComponentStatus → ComponentStatus) where
  map_swap :
      (g : ComponentStatus → ComponentStatus) (list : List ComponentStatus)
      → ((cs : ComponentStatus) → f (g cs) ≡ g (f cs))
      → map f (map g list) ≡ map g (map f list)
  map_swap g [] swap = refl
  map_swap g (cs ∷ list) swap = rw (swap cs, map_swap g list swap) refl

  map_entries_swap :
      (g : ComponentStatus → ComponentStatus) (es : List (String × List ComponentStatus))
      → ((cs : ComponentStatus) → f (g cs) ≡ g (f cs))
      → map_entries f (map_entries g es) ≡ map_entries g (map_entries f es)
  map_entries_swap g [] swap = refl
  map_entries_swap g ((k, v) ∷ es) swap = rw (map_swap g v swap, map_entries_swap g es swap) refl

-- The stamps of the document are those of the response.
erase-canonical :
    (response : HealthResponse)
    → map_entries erase (canonical response).checks
      ≡ map_entries canonical_component (sort_keys (map_entries erase response.checks))
erase-canonical response =
    map_entries_swap erase canonical_component (sort_keys response.checks) (λ cs. refl)
    ∙ ap (map_entries canonical_component) (sym (sort_keys-map (map erase) response.checks))

-- What two answers with one code, one log and documents that are the same but for their stamps have in
-- common.
pub record AreAlike (one two : Served) : Type 0 where
  pub code_same : one.writer.status ≡ two.writer.status
  pub logs_same : one.logged ≡ two.logged
  pub doc_one : Json
  pub doc_two : Json
  pub answer_one : HealthResponse
  pub answer_two : HealthResponse
  pub body_one : one.writer.body ≡ document doc_one ∷ []
  pub body_two : two.writer.body ≡ document doc_two ∷ []
  pub read_one : decode doc_one ≡ some answer_one
  pub read_two : decode doc_two ≡ some answer_two
  pub status_same : answer_one.status ≡ answer_two.status
  pub service_same : answer_one.service_id ≡ answer_two.service_id
  pub description_same : answer_one.description ≡ answer_two.description
  pub entries_same : map_entries erase answer_one.checks ≡ map_entries erase answer_two.checks

module _ (p : Probe) (e : Engine) (ctx : Context) (steady : All (IsSteady ctx) (checks_of p e))
    (leaves : All (Leaves Encodes ctx) (checks_of p e)) where
  seen_inv :
      (r r' : HealthResponse) (l l' : List LogEntry) (u u' : ℕ)
      → seen (returned (r, l) u) ≡ seen (returned (r', l') u')
      → (r.status ≡ r'.status)
        × (r.service_id ≡ r'.service_id)
        × (r.description ≡ r'.description)
        × (map_entries erase r.checks ≡ map_entries erase r'.checks)
        × (l ≡ l')
  seen_inv r r' l l' u u' h =
      let (same, _) = returned-inv h in
      (
        ap (λ a. a.0.status) same,
        ap (λ a. a.0.service_id) same,
        ap (λ a. a.0.description) same,
        ap (λ a. a.0.checks) same,
        ap (λ a. a.1) same,
      )

  answers_alike :
      (delay delay' : ℕ → ℕ) (t t' u u' : ℕ) (served served' : Served)
      → handler p e delay ctx (fresh none) t ≡ returned served u
      → handler p e delay' ctx (fresh none) t' ≡ returned served' u'
      → AreAlike served served'
  answers_alike delay delay' t t' u u' served served' h h' =
      let (r, l, doc, ran, encodes, sent) = handler-IsSent p e delay ctx none t u served leaves h in
      let (r', l', doc', ran', encodes', sent') =
        handler-IsSent p e delay' ctx none t' u' served' leaves h' in
      let (status, service, description, entries, logs) = seen_inv r r' l l' u u' (
        sym (ap seen ran)
        ∙ seen-run p e ctx delay t 0 steady
        ∙ sym (seen-run p e ctx delay' t' 0 steady)
        ∙ ap seen ran') in
      record {
        code_same = sent.status ∙ ap (λ s. some (http_status_code s)) status ∙ sym sent'.status;
        logs_same = sent.logs ∙ logs ∙ sym sent'.logs;
        doc_one = doc;
        doc_two = doc';
        answer_one = canonical r;
        answer_two = canonical r';
        body_one = elim sent.delivered [ inl (_, body, _) ↦ body | inr (err, gone, _, _) ↦ cc ];
        body_two = elim sent'.delivered [ inl (_, body, _) ↦ body | inr (err, gone, _, _) ↦ cc ];
        read_one = decode-encode r doc encodes;
        read_two = decode-encode r' doc' encodes';
        status_same = status;
        service_same = service;
        description_same = description;
        entries_same =
            erase-canonical r
            ∙ ap (λ m. map_entries canonical_component (sort_keys m)) entries
            ∙ sym (erase-canonical r');
      }

  handler_returns :
      (l : Logger) (delay : ℕ → ℕ) (t : ℕ)
      → e.logger ≡ some l
      → (served : Served) × (u : ℕ) × (handler p e delay ctx (fresh none) t ≡ returned served u)
  handler_returns l delay t has =
      let (slots, u, j, _) = fork_join_steady ctx delay t (checks_of p e) steady in
      let (served, w, ran, _) = handler_total p e l delay ctx none t u slots has leaves j in
      (served, w, ran)

  -- An engine has a logger; the checks of a probe always return under the context of a request, with the
  -- same results, and what they observe is nil or encodes. Then two requests for the probe are answered,
  -- at whatever times and under whatever schedules, with the same code, the same entries in the
  -- log, and documents that say the same but for the stamps.
  pub handler-AreAlike :
      (l : Logger) (delay delay' : ℕ → ℕ) (t t' : ℕ)
      → e.logger ≡ some l
      → (served : Served) × (u : ℕ) × (served' : Served) × (u' : ℕ) × (handler p e delay ctx
            (fresh none)
            t
          ≡ returned served u)
        × (handler p e delay' ctx (fresh none) t' ≡ returned served' u')
        × AreAlike served served'
  handler-AreAlike l delay delay' t t' has =
      let (served, u, ran) = handler_returns l delay t has in
      let (served', u', ran') = handler_returns l delay' t' has in
      (
        served,
        u,
        served',
        u',
        ran,
        ran',
        answers_alike delay delay' t t' u u' served served' ran ran',
      )
