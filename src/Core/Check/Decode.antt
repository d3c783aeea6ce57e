-- ===== src/Core/Check/Decode.antt =====
-- core/check.go: the `json` tags of the response, as a client reads them. A member sets the field of
-- its tag, a member that is missing leaves the zero value, and an unknown one is passed over.
pub mod RoundTrip
use go_health.Prelude.{String, List, [], ◌∷◌, Option, none, some, ◌==◌, if◌then◌else◌}
use go_health.Go.Json.{
  Json, null, str, array, object, Items, nil, item, Members, end, member, Value, encodable,
}
use go_health.Core.Check.{ComponentStatus, HealthResponse}

infixl 5 ◌>>=◌
abbrev pub ◌>>=◌ {ℓ κ} : {A : Type ℓ} {B : Type κ} → Option A → (A → Option B) → Option B
none >>= f = none
some a >>= f = f a

unfoldable pub decode_members {ℓ} :
    {A : Type ℓ} → (A → String → Json → Option A) → Members → A → Option A
decode_members set end acc = some acc
decode_members set (member k doc ms) acc = do next ← set acc k doc; decode_members set ms next

abbrev pub decode_text : Json → Option String
decode_text (str s) = some s
decode_text _ = none

-- A value of type `any` that is null is nil.
abbrev pub decode_value : Json → Value
decode_value null = nil
decode_value doc = encodable doc

unfoldable pub decode_items : Items → Option (List String)
decode_items nil = some []
decode_items (item doc docs) = do s ← decode_text doc; ss ← decode_items docs; some (s ∷ ss)

abbrev pub decode_strings : Json → Option (List String)
decode_strings (array docs) = decode_items docs
decode_strings _ = none

unfoldable pub decode_texts : Members → Option (List (String × String))
decode_texts end = some []
decode_texts (member k doc ms) = do
  s ← decode_text doc
  rest ← decode_texts ms
  some ((k, s) ∷ rest)

abbrev pub decode_links : Json → Option (List (String × String))
decode_links (object ms) = decode_texts ms
decode_links _ = none

abbrev pub zero_component : ComponentStatus
zero_component = record {
  component_id = "";
  component_type = "";
  observed_value = nil;
  observed_unit = "";
  status = "";
  affected_endpoints = [];
  time = "";
  output = "";
  links = [];
}

abbrev pub set_component : ComponentStatus → String → Json → Option ComponentStatus
set_component cs k doc =
    if k == "componentId"
    then (do s ← decode_text doc; some (record cs { component_id = s }))
    else if k == "componentType"
    then (do s ← decode_text doc; some (record cs { component_type = s }))
    else if k == "observedValue"
    then some (record cs { observed_value = decode_value doc })
    else if k == "observedUnit"
    then (do s ← decode_text doc; some (record cs { observed_unit = s }))
    else if k == "status"
    then (do s ← decode_text doc; some (record cs { status = s }))
    else if k == "affectedEndpoints"
    then (do ss ← decode_strings doc; some (record cs { affected_endpoints = ss }))
    else if k == "time"
    then (do s ← decode_text doc; some (record cs { time = s }))
    else if k == "output"
    then (do s ← decode_text doc; some (record cs { output = s }))
    else if k == "links"
    then (do ls ← decode_links doc; some (record cs { links = ls }))
    else some cs

abbrev pub decode_component : Json → Option ComponentStatus
decode_component (object ms) = decode_members set_component ms zero_component
decode_component _ = none

unfoldable pub decode_components : Items → Option (List ComponentStatus)
decode_components nil = some []
decode_components (item doc docs) = do
  cs ← decode_component doc
  list ← decode_components docs
  some (cs ∷ list)

abbrev pub decode_list : Json → Option (List ComponentStatus)
decode_list (array docs) = decode_components docs
decode_list _ = none

unfoldable pub decode_checks : Members → Option (List (String × List ComponentStatus))
decode_checks end = some []
decode_checks (member name doc ms) = do
  list ← decode_list doc
  rest ← decode_checks ms
  some ((name, list) ∷ rest)

abbrev pub decode_map : Json → Option (List (String × List ComponentStatus))
decode_map (object ms) = decode_checks ms
decode_map _ = none

abbrev pub set_response : HealthResponse → String → Json → Option HealthResponse
set_response r k doc =
    if k == "status"
    then (do s ← decode_text doc; some (record r { status = s }))
    else if k == "serviceId"
    then (do s ← decode_text doc; some (record r { service_id = s }))
    else if k == "description"
    then (do s ← decode_text doc; some (record r { description = s }))
    else if k == "checks"
    then (do checks ← decode_map doc; some (record r { checks = checks }))
    else some r

abbrev pub zero_response : HealthResponse
zero_response = record { status = ""; service_id = ""; description = ""; checks = [] }

pub decode : Json → Option HealthResponse
decode (object ms) = decode_members set_response ms zero_response
decode _ = none
