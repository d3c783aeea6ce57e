-- ===== src/Core/Check/Encode/Keys.antt =====
-- Which keys the object of a component has.
use go_health.Prelude.{
  ◌≡◌, refl, ◌∙◌, false, ◌≢◌, String, List, [], ◌∷◌, Option, none, some, map, arith, ◌==◌,
  test_of_ne, if◌then◌else◌,
}
use go_health.Go.Json.{
  Json, Value, nil, encodable, unsupported, panicking, str, array, items, encoded, value_field,
  text_field,
}
use go_health.Go.Table.{lookup, or_else, lookup-append}
use go_health.Core.Check.{ComponentStatus}
use go_health.Core.Check.Encode.Inversion.{component_fields-inv}
use go_health.Core.Check.Encode.{strings_field, links_field, component_fields}

abbrev pub present : String → Option Json
present s = if s == "" then none else some (str s)

pub present_of_ne : (s : String) → s ≢ "" → present s ≡ some (str s)
present_of_ne s other = rw (test_of_ne s "" other)

abbrev pub present_list : List String → Option Json
present_list [] = none
present_list (s ∷ ss) = some (array (items (map str (s ∷ ss))))

lookup-text_field :
    (k key s : String) → lookup k (text_field key s) ≡ (if key == k then present s else none)
unfolding lookup
lookup-text_field k key s = ground arith

lookup-strings_field :
    (k key : String) (ss : List String)
    → lookup k (strings_field key ss) ≡ (if key == k then present_list ss else none)
unfolding lookup
lookup-strings_field k key [] = ground arith
lookup-strings_field k key (s ∷ ss) = ground arith

lookup-links_field :
    (k key : String) (ls : List (String × String))
    → (key == k) ≡ false
    → lookup k (links_field key ls) ≡ none
unfolding lookup
lookup-links_field k key [] e = refl
lookup-links_field k key (l ∷ ls) e = rw e

lookup-value_field :
    (k key : String) (v : Value) {observed : List (String × Json)}
    → (key == k) ≡ false
    → value_field key v ≡ encoded observed
    → lookup k observed ≡ none
unfolding lookup value_field
lookup-value_field k key nil {observed} e h = let none_there : observed ≡ [] = cc in rw none_there
lookup-value_field k key (encodable doc) {observed} e h =
    let one : observed ≡ (key, doc) ∷ [] = cc in rw (one, e)
lookup-value_field k key (unsupported message) e h = cc
lookup-value_field k key (panicking message) e h = cc

-- The value of a member under any key but "observedValue" and "links".
abbrev text_at : String → String → String → Option Json
text_at k key s = if key == k then present s else none

abbrev fields_at : String → ComponentStatus → Option Json
fields_at k cs = or_else (text_at k "componentId" cs.component_id) (
    or_else (text_at k "componentType" cs.component_type) (
      or_else (text_at k "observedUnit" cs.observed_unit) (
        or_else (text_at k "status" cs.status) (
          or_else (if "affectedEndpoints" == k then present_list cs.affected_endpoints else none)
            (or_else (text_at k "time" cs.time) (text_at k "output" cs.output))))))

or_else-none : (o : Option Json) → or_else o none ≡ o
or_else-none none = refl
or_else-none (some x) = refl

lookup-component_fields :
    (k : String) (cs : ComponentStatus) (fields : List (String × Json))
    → ("observedValue" == k) ≡ false
    → ("links" == k) ≡ false
    → component_fields cs ≡ encoded fields
    → lookup k fields ≡ fields_at k cs
lookup-component_fields k cs fields not_value not_links h =
    let (observed, valued, same) = component_fields-inv cs fields h in
    let missing = lookup-value_field k "observedValue" cs.observed_value not_value valued in
    let no_links = lookup-links_field k "links" cs.links not_links in
    rw same (
      simp
        (lookup-append, lookup-text_field, lookup-strings_field, missing, no_links, or_else-none))

-- A key with the option `omitempty` stands in the object of a component, with its value, exactly when
-- the value is not empty. So it is for the diagnostics, the status and the stamp.
pub component_fields-lookup :
    (cs : ComponentStatus) (fields : List (String × Json))
    → component_fields cs ≡ encoded fields
    → (lookup "output" fields ≡ present cs.output)
      × (lookup "affectedEndpoints" fields ≡ present_list cs.affected_endpoints)
      × (lookup "status" fields ≡ present cs.status)
      × (lookup "time" fields ≡ present cs.time)
      × (lookup "componentId" fields ≡ present cs.component_id)
component_fields-lookup cs fields h = (
  lookup-component_fields "output" cs fields refl refl h,
  lookup-component_fields "affectedEndpoints" cs fields refl refl h ∙ or_else-none _,
  lookup-component_fields "status" cs fields refl refl h ∙ or_else-none _,
  lookup-component_fields "time" cs fields refl refl h ∙ or_else-none _,
  lookup-component_fields "componentId" cs fields refl refl h ∙ or_else-none _,
)
