-- ===== src/Core/Check/Encode/Total.antt =====
-- When a response encodes.
use go_health.Prelude.{◌≡◌, refl, ◌↔◌, String, List, [], ◌∷◌, ◌++◌, All}
use go_health.Go.Json.{
  Json, Value, str, text_field, nil, encodable, unsupported, panicking, encoded, items, object,
  array, members, value_field, sort_keys, >>=-eq-encoded,
}
use go_health.Go.Json.Sorted.{sort_keys-All}
use go_health.Core.Check.{ComponentStatus, HealthResponse}
use go_health.Core.Check.Encode.Inversion.{
  component_fields-inv, encode_components-inv, encode_checks-inv,
}
use go_health.Core.Check.Encode.{
  component_members, component_fields, encode_components, encode_checks, object_field, encode,
}

-- A value that the encoder writes, or leaves out.
abbrev pub IsEncodable : Value → Type 0
IsEncodable nil = Unit
IsEncodable (encodable doc) = Unit
IsEncodable (unsupported message) = ⊥
IsEncodable (panicking message) = ⊥

abbrev pub Encodes : ComponentStatus → Type 0
Encodes cs = IsEncodable cs.observed_value

value_field-encoded :
    (key : String) (v : Value)
    → IsEncodable v ↔ ((fields : List (String × Json)) × (value_field key v ≡ encoded fields))
unfolding value_field
value_field-encoded key nil = (λ h. ([], refl), λ h. tt)
value_field-encoded key (encodable doc) = (λ h. ((key, doc) ∷ [], refl), λ h. tt)
value_field-encoded key (unsupported message) = (λ h. absurd h, λ h. let (fields, e) = h in cc)
value_field-encoded key (panicking message) = (λ h. absurd h, λ h. let (fields, e) = h in cc)

component_fields-encoded :
    (cs : ComponentStatus)
    → Encodes cs ↔ ((fields : List (String × Json)) × (component_fields cs ≡ encoded fields))
unfolding component_fields
component_fields-encoded cs =
    let (to, from) = value_field-encoded "observedValue" cs.observed_value in
    (
      λ h. let (observed, e) = to h in (component_members observed cs, rw e),
      λ h.
          let (fields, e) = h in
          let (observed, valued, _) = component_fields-inv cs fields e in from (observed, valued),
    )

encode_components-encoded :
    (list : List ComponentStatus)
    → All Encodes list ↔ ((docs : List Json) × (encode_components list ≡ encoded docs))
unfolding encode_components
encode_components-encoded [] = (λ h. ([], refl), λ h. tt)
encode_components-encoded (cs ∷ list) =
    let (to, from) = component_fields-encoded cs in
    let (to_rest, from_rest) = encode_components-encoded list in
    (
      λ h.
          let (fields, e) = to h.0 in
          let (docs, r) = to_rest h.1 in (object (members fields) ∷ docs, rw (e, r)),
      λ h.
          let (docs, e) = h in
          let (fields, later, first, second, _) = encode_components-inv cs list docs e in
          (from (fields, first), from_rest (later, second)),
    )

encode_checks-encoded :
    (checks : List (String × List ComponentStatus))
    → All (λ e. All Encodes e.1) checks
      ↔ ((docs : List (String × Json)) × (encode_checks checks ≡ encoded docs))
unfolding encode_checks
encode_checks-encoded [] = (λ h. ([], refl), λ h. tt)
encode_checks-encoded ((name, list) ∷ checks) =
    let (to, from) = encode_components-encoded list in
    let (to_rest, from_rest) = encode_checks-encoded checks in
    (
      λ h.
          let (docs, e) = to h.0 in
          let (rest, r) = to_rest h.1 in ((name, array (items docs)) ∷ rest, rw (e, r)),
      λ h.
          let (docs, e) = h in
          let (here, later, first, second, _) = encode_checks-inv name list checks docs e in
          (from (here, first), from_rest (later, second)),
    )

abbrev document_of : HealthResponse → List (String × Json) → Json
document_of response checks = object (
    members (
      ("status", str response.status) ∷ text_field "serviceId" response.service_id
      ++ (text_field "description" response.description ++ object_field "checks" checks)))

-- A response encodes exactly when each value that was observed is nil or encodes by itself: the maps,
-- the strings and the statuses never stand in the way.
pub encode-encoded :
    (response : HealthResponse)
    → ((doc : Json) × (encode response ≡ encoded doc)) ↔ All (λ e. All Encodes e.1) response.checks
unfolding encode
encode-encoded response =
    let (to, from) = encode_checks-encoded (sort_keys response.checks) in
    let (to_sorted, from_sorted) = sort_keys-All (λ e. All Encodes e.1) response.checks in
    (
      λ h.
          let (doc, e) = h in
          let (checks, done, _) = >>=-eq-encoded (encode_checks (sort_keys response.checks)) _ e in
          to_sorted (from (checks, done)),
      λ h. let (checks, e) = to (from_sorted h) in (document_of response checks, rw e),
    )
