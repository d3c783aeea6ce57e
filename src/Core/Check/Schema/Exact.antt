-- ===== src/Core/Check/Schema/Exact.antt =====
-- core/check.go: from a document with the shape of a response back to a response.
use mathlib.Core.Path.{subst}
use go_health.Prelude.{◌≡◌, ◌≢◌, refl, ap, ◌∙◌, ◌↔◌, String, List, [], ◌∷◌, ◌++◌, some, All}
use go_health.Go.Json.{Json, str, object, encoded, Members, members, sort_keys, text_field}
use go_health.Go.Json.Ascending.{Rising, keys, sort_keys-id, Rising-Ascending, Rising-IsMap}
use go_health.Go.Table.{IsMap}
use go_health.Core.Check.{ComponentStatus, HealthResponse}
use go_health.Core.Check.Encode.{encode_components, encode_checks, object_field, encode}
use go_health.Core.Check.Decode.{decode}
use go_health.Core.Check.Decode.RoundTrip.{canonical, decode-encode}
use go_health.Core.Check.Schema.Typed.{encode-Shaped}
use go_health.Core.Check.Schema.Inversion.{text_field-from, behind, component_fields-from}
use go_health.Core.Check.Schema.{
  exact, AreProper, IsProper, Shaped, list, dict, struct, nothing, optional, is_text, is_list,
  is_dict, is_struct, AllHave, no_item, next_item, AllNamed, no_name, next_name, Matches, no_field,
  present, kept, left_out, component, health,
}

encode_components-from :
    {docs : List Json}
    → AllHave exact (struct component) docs
    → (found : List ComponentStatus) × (encode_components found ≡ encoded docs)
      × All (λ cs. IsMap cs.links) found
      × (docs ≢ [] → found ≢ [])
unfolding encode_components
encode_components-from no_item = ([], refl, tt, λ filled _. filled refl)
encode_components-from (next_item (is_struct es same fields) later) =
    let (cs, first, once) = component_fields-from fields in
    let (found, second, others, _) = encode_components-from later in
    (cs ∷ found, rw (first, second, same) refl, (once, others), λ filled empty. cc)

encode_checks-from :
    {docs : List (String × Json)}
    → AllNamed exact (list (struct component)) docs
    → (checks : List (String × List ComponentStatus)) × (encode_checks checks ≡ encoded docs)
      × (keys docs ≡ keys checks)
      × All (λ e. AreProper exact e.1) checks
unfolding encode_checks
encode_checks-from no_name = ([], refl, refl, tt)
encode_checks-from (next_name name (is_list ds same filled typed) later) =
    let (found, first, once, kept_filled) = encode_components-from typed in
    let (checks, second, named, proper) = encode_checks-from later in
    (
      (name, found) ∷ checks,
      rw (first, second, same) refl,
      ap (λ ks. name ∷ ks) named,
      ((kept_filled filled, once), proper),
    )

filled_checks :
    (docs : List (String × Json)) (ms : Members)
    → object ms ≢ object (members [])
    → ms ≡ members docs
    → ("checks", object ms) ∷ [] ≡ object_field "checks" docs
filled_checks [] ms filled same = absurd (filled (ap object same))
filled_checks (d ∷ docs) ms filled same = rw same refl

checks-from :
    {es : List (String × Json)}
    → Matches exact (optional "checks" (dict (list (struct component))) nothing) es
    → (checks : List (String × List ComponentStatus)) × (docs : List (String × Json))
      × (encode_checks (sort_keys checks) ≡ encoded docs)
      × (es ≡ object_field "checks" docs)
      × IsMap checks
      × All (λ e. AreProper exact e.1) checks
unfolding encode_checks sort_keys
checks-from (kept _ (is_dict {ms} docs same rising typed) filled no_field) =
    let (checks, encodes, named, proper) = encode_checks-from typed in
    let in_order = subst Rising named rising in
    let sorted = sort_keys-id checks (Rising-Ascending (keys checks) in_order) in
    (
      checks,
      docs,
      ap encode_checks sorted ∙ encodes,
      filled_checks docs ms filled same,
      Rising-IsMap checks in_order,
      proper,
    )
checks-from (left_out _ _ no_field) = ([], [], refl, refl, tt, tt)

encode_of :
    (response : HealthResponse) {docs es : List (String × Json)} {ms : Members}
    → encode_checks (sort_keys response.checks) ≡ encoded docs
    → es
      ≡ text_field "serviceId" response.service_id
        ++ (text_field "description" response.description ++ object_field "checks" docs)
    → ms ≡ members (("status", str response.status) ∷ es)
    → encode response ≡ encoded (object ms)
unfolding encode
encode_of response encodes same whole = rw (encodes, whole, same) refl

encode-from :
    {doc : Json}
    → Shaped exact health doc
    → (response : HealthResponse) × IsProper exact response × (encode response ≡ encoded doc)
encode-from (is_struct es same (present _ (is_text status) h)) =
    let (service_id, _, e, h) = text_field-from "serviceId" h in
    let (description, _, e', h) = text_field-from "description" h in
    let (checks, docs, encodes, e'', once, proper) = checks-from h in
    let response : HealthResponse = record {
      status = status;
      service_id = service_id;
      description = description;
      checks = checks;
    } in
    (response, (once, proper), encode_of response encodes (e ∙ behind _ (e' ∙ behind _ e'')) same)

-- A document has the shape that the struct types and their tags describe, the members of each object in
-- the order of the fields, each of its type, none empty but the status and what was observed, the names
-- of each map in order and each once, and no list empty, exactly when it is what the encoder writes for
-- some response in which no name of a map of checks or of links stands twice and there is a component
-- under each name of the checks; a reader that goes by the tags then reads it, and finds that response in
-- canonical form.
pub health_documents :
    (doc : Json)
    → Shaped exact health doc ↔ (
        (response : HealthResponse) × IsProper exact response
        × (encode response ≡ encoded doc)
        × (decode doc ≡ some (canonical response)))
health_documents doc = (
  λ typed.
      let (response, proper, encodes) = encode-from typed in
      (response, proper, encodes, decode-encode response doc encodes),
  λ h. let (response, proper, encodes, _) = h in encode-Shaped exact response doc proper encodes,
)
