-- ===== src/Core/Check/Schema/Inversion.antt =====
-- core/check.go: from the fields of a typed object back to what was encoded.
use mathlib.Core.Path.{subst}
use go_health.Prelude.{◌≡◌, ◌≢◌, refl, ap, ◌∙◌, String, List, [], ◌∷◌, ◌++◌, map, test_of_ne}
use go_health.Go.Json.{
  Json, str, array, object, Value, nil, encodable, encoded, Items, Members, items, members,
  sort_keys, text_field, value_field,
}
use go_health.Go.Json.Ascending.{Rising, keys, sort_keys-id, Rising-Ascending, Rising-IsMap}
use go_health.Go.Table.{IsMap}
use go_health.Core.Check.{ComponentStatus}
use go_health.Core.Check.Encode.{
  strings_field, texts, links_field, component_members, component_fields,
}
use go_health.Core.Check.Schema.{
  exact, text, anything, list, dict, Fields, nothing, optional, is_text, is_anything, is_list,
  is_dict, AllHave, no_item, next_item, AllNamed, no_name, next_name, Matches, no_field, kept,
  left_out, component,
}

-- The first field, from what the object has of it, and the other members.
pub text_field-from :
    (key : String) {fs : Fields} {es : List (String × Json)}
    → Matches exact (optional key text fs) es
    → (s : String) × (rest : List (String × Json)) × (es ≡ text_field key s ++ rest)
      × Matches exact fs rest
text_field-from key (kept _ (is_text s) filled rest) =
    (s, _, rw (test_of_ne s "" (λ e. filled (ap str e))) refl, rest)
text_field-from key (left_out _ _ rest) = ("", _, refl, rest)

value_field-from :
    (key : String) {fs : Fields} {es : List (String × Json)}
    → Matches exact (optional key anything fs) es
    → (v : Value) × (observed : List (String × Json)) × (rest : List (String × Json)) × (value_field
          key v
        ≡ encoded observed)
      × (es ≡ observed ++ rest)
      × Matches exact fs rest
unfolding value_field
value_field-from key (kept _ (is_anything doc) filled rest) =
    (encodable doc, (key, doc) ∷ [], _, refl, refl, rest)
value_field-from key (left_out _ _ rest) = (nil, [], _, refl, refl, rest)

strings-from : {ds : List Json} → AllHave exact text ds → (ss : List String) × (ds ≡ map str ss)
strings-from no_item = ([], refl)
strings-from (next_item (is_text s) later) =
    let (ss, same) = strings-from later in (s ∷ ss, ap (λ ds. str s ∷ ds) same)

filled_strings :
    (key : String) (ss : List String) (docs : Items)
    → array docs ≢ array (items [])
    → docs ≡ items (map str ss)
    → (key, array docs) ∷ [] ≡ strings_field key ss
filled_strings key [] docs filled same = absurd (filled (ap array same))
filled_strings key (s ∷ ss) docs filled same = rw same refl

strings_field-from :
    (key : String) {fs : Fields} {es : List (String × Json)}
    → Matches exact (optional key (list text) fs) es
    → (ss : List String) × (rest : List (String × Json)) × (es ≡ strings_field key ss ++ rest)
      × Matches exact fs rest
strings_field-from key (kept {es} _ (is_list {docs} ds same listed typed) filled rest) =
    let (ss, texts_so) = strings-from typed in
    (
      ss,
      _,
      ap (λ front. front ++ es) (filled_strings key ss docs filled (same ∙ ap items texts_so)),
      rest,
    )
strings_field-from key (left_out _ _ rest) = ([], _, refl, rest)

texts-from :
    {es : List (String × Json)}
    → AllNamed exact text es
    → (ls : List (String × String)) × (es ≡ texts ls) × (keys es ≡ keys ls)
texts-from no_name = ([], refl, refl)
texts-from (next_name name (is_text s) later) =
    let (ls, same, named) = texts-from later in
    ((name, s) ∷ ls, ap (λ es. (name, str s) ∷ es) same, ap (λ ks. name ∷ ks) named)

filled_links :
    (key : String) (ls : List (String × String)) (ms : Members)
    → object ms ≢ object (members [])
    → ms ≡ members (texts ls)
    → sort_keys ls ≡ ls
    → (key, object ms) ∷ [] ≡ links_field key ls
filled_links key [] ms filled same sorted = absurd (filled (ap object same))
filled_links key (l ∷ ls) ms filled same sorted = rw (same, sorted) refl

links_field-from :
    (key : String) {es : List (String × Json)}
    → Matches exact (optional key (dict text) nothing) es
    → (ls : List (String × String)) × (es ≡ links_field key ls) × IsMap ls
links_field-from key (kept _ (is_dict {ms} es same rising typed) filled no_field) =
    let (ls, texts_so, named) = texts-from typed in
    let in_order = subst Rising named rising in
    (
      ls,
      filled_links key ls ms filled (same ∙ ap members texts_so)
          (sort_keys-id ls (Rising-Ascending (keys ls) in_order)),
      Rising-IsMap ls in_order,
    )
links_field-from key (left_out _ _ no_field) = ([], refl, tt)

pub behind :
    (front : List (String × Json)) {es fs : List (String × Json)}
    → es ≡ fs
    → front ++ es ≡ front ++ fs
behind front h = ap (λ rest. front ++ rest) h

component_fields_of :
    (cs : ComponentStatus) {observed es : List (String × Json)}
    → value_field "observedValue" cs.observed_value ≡ encoded observed
    → es ≡ component_members observed cs
    → component_fields cs ≡ encoded es
unfolding component_fields
component_fields_of cs valued same = rw (valued, same) refl

pub component_fields-from :
    {es : List (String × Json)}
    → Matches exact component es
    → (cs : ComponentStatus) × (component_fields cs ≡ encoded es) × IsMap cs.links
component_fields-from h =
    let (component_id, _, e, h) = text_field-from "componentId" h in
    let (component_type, _, e', h) = text_field-from "componentType" h in
    let (observed_value, observed, _, valued, e'', h) = value_field-from "observedValue" h in
    let (observed_unit, _, f, h) = text_field-from "observedUnit" h in
    let (status, _, f', h) = text_field-from "status" h in
    let (affected_endpoints, _, f'', h) = strings_field-from "affectedEndpoints" h in
    let (time, _, g, h) = text_field-from "time" h in
    let (output, _, g', h) = text_field-from "output" h in
    let (links, g'', once) = links_field-from "links" h in
    (
      record {
        component_id = component_id;
        component_type = component_type;
        observed_value = observed_value;
        observed_unit = observed_unit;
        status = status;
        affected_endpoints = affected_endpoints;
        time = time;
        output = output;
        links = links;
      },
      component_fields_of _ valued (
          e
          ∙ behind _ (
              e'
              ∙ behind _ (
                  e''
                  ∙ behind _ (
                      f
                      ∙ behind _
                          (f' ∙ behind _ (f'' ∙ behind _ (g ∙ behind _ (g' ∙ behind _ g'')))))))),
      once,
    )
