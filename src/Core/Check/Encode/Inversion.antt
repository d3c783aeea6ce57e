-- ===== src/Core/Check/Encode/Inversion.antt =====
-- What an encoding that succeeded is made of.
use go_health.Prelude.{◌≡◌, String, List, [], ◌∷◌}
use go_health.Go.Json.{
  Json, encoded, ◌>>=◌, items, members, object, array, value_field, >>=-eq-encoded,
}
use go_health.Core.Check.{ComponentStatus}
use go_health.Core.Check.Encode.{
  component_members, component_fields, encode_components, encode_checks,
}

pub component_fields-inv :
    (cs : ComponentStatus) (fields : List (String × Json))
    → component_fields cs ≡ encoded fields
    → (observed : List (String × Json)) × (value_field "observedValue" cs.observed_value
        ≡ encoded observed)
      × (fields ≡ component_members observed cs)
unfolding component_fields
component_fields-inv cs fields h =
    let (observed, valued, whole) =
      >>=-eq-encoded (value_field "observedValue" cs.observed_value)
        (λ o. encoded (component_members o cs)) h in
    (observed, valued, cc)

pub encode_components-nil : (docs : List Json) → encode_components [] ≡ encoded docs → docs ≡ []
unfolding encode_components
encode_components-nil docs h = cc

pub encode_components-inv :
    (cs : ComponentStatus) (list : List ComponentStatus) (docs : List Json)
    → encode_components (cs ∷ list) ≡ encoded docs
    → (fields : List (String × Json)) × (later : List Json) × (component_fields cs ≡ encoded fields)
      × (encode_components list ≡ encoded later)
      × (docs ≡ object (members fields) ∷ later)
unfolding encode_components
encode_components-inv cs list docs h =
    let (fields, first, rest) =
      >>=-eq-encoded (component_fields cs)
        (λ fs. encode_components list >>= λ ds. encoded (object (members fs) ∷ ds)) h in
    let (later, second, _) =
      >>=-eq-encoded (encode_components list) (λ ds. encoded (object (members fields) ∷ ds)) rest in
    (fields, later, first, second, cc)

pub encode_checks-nil : (docs : List (String × Json)) → encode_checks [] ≡ encoded docs → docs ≡ []
unfolding encode_checks
encode_checks-nil docs h = cc

pub encode_checks-inv :
    (name : String) (list : List ComponentStatus) (checks : List (String × List ComponentStatus))
    (docs : List (String × Json))
    → encode_checks ((name, list) ∷ checks) ≡ encoded docs
    → (here : List Json) × (later : List (String × Json)) × (encode_components list ≡ encoded here)
      × (encode_checks checks ≡ encoded later)
      × (docs ≡ (name, array (items here)) ∷ later)
unfolding encode_checks
encode_checks-inv name list checks docs h =
    let (here, first, rest) =
      >>=-eq-encoded (encode_components list)
        (λ ds. encode_checks checks >>= λ ms. encoded ((name, array (items ds)) ∷ ms)) h in
    let (later, second, _) =
      >>=-eq-encoded (encode_checks checks) (λ ms. encoded ((name, array (items here)) ∷ ms))
        rest in
    (here, later, first, second, cc)
