-- ===== src/Core/Check/Encode.antt =====
-- core/check.go: the `json` tags of the response, as encoding/json reads them.
pub mod Inversion
pub mod Keys
pub mod Total
use go_health.Prelude.{String, List, [], ◌∷◌, ◌++◌, map}
use go_health.Go.Json.{
  Json, str, array, object, Encoded, encoded, failed, panicked, ◌>>=◌, items, members, sort_keys,
  text_field, value_field,
}
use go_health.Core.Check.{ComponentStatus, HealthResponse}

-- A slice and a map with `omitempty`.
abbrev pub strings_field : String → List String → List (String × Json)
strings_field key [] = []
strings_field key (s ∷ ss) = (key, array (items (map str (s ∷ ss)))) ∷ []

abbrev pub texts : List (String × String) → List (String × Json)
texts [] = []
texts ((k, v) ∷ ms) = (k, str v) ∷ texts ms

abbrev pub links_field : String → List (String × String) → List (String × Json)
links_field key [] = []
links_field key (l ∷ ls) = (key, object (members (texts (sort_keys (l ∷ ls))))) ∷ []

-- The members of the object of a component, in the order of the struct's fields.
abbrev pub component_members : List (String × Json) → ComponentStatus → List (String × Json)
component_members observed cs =
    text_field "componentId" cs.component_id
    ++ (text_field "componentType" cs.component_type
        ++ (observed
            ++ (text_field "observedUnit" cs.observed_unit
                ++ (text_field "status" cs.status
                    ++ (strings_field "affectedEndpoints" cs.affected_endpoints
                        ++ (text_field "time" cs.time
                            ++ (text_field "output" cs.output ++ links_field "links" cs.links)))))))

unfoldable pub component_fields : ComponentStatus → Encoded (List (String × Json))
component_fields cs = do
  observed ← value_field "observedValue" cs.observed_value
  encoded (component_members observed cs)

unfoldable pub encode_components : List ComponentStatus → Encoded (List Json)
encode_components [] = encoded []
encode_components (cs ∷ list) = do
  fields ← component_fields cs
  docs ← encode_components list
  encoded (object (members fields) ∷ docs)

unfoldable pub encode_checks : List (String × List ComponentStatus) → Encoded (List (String × Json))
unfolding encode_components
encode_checks [] = encoded []
encode_checks ((name, list) ∷ checks) = do
  docs ← encode_components list
  rest ← encode_checks checks
  encoded ((name, array (items docs)) ∷ rest)

abbrev pub object_field : String → List (String × Json) → List (String × Json)
object_field key [] = []
object_field key (m ∷ ms) = (key, object (members (m ∷ ms))) ∷ []

-- json.NewEncoder(&buf).Encode(resp). The status has no `omitempty`.
unfoldable pub encode : HealthResponse → Encoded Json
unfolding encode_checks
encode response = do
  checks ← encode_checks (sort_keys response.checks)
  encoded (
      object (
        members (
          ("status", str response.status) ∷ text_field "serviceId" response.service_id
          ++ (text_field "description" response.description ++ object_field "checks" checks))))
