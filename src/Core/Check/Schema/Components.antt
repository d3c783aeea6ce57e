-- ===== src/Core/Check/Schema/Components.antt =====
-- core/check.go: the fields of an encoded component against the schema.
use mathlib.Core.Path.{subst}
use go_health.Prelude.{
  ◌≡◌, refl, sym, ap, ◌≢◌, inl, inr, Bool-cases, ne_of_test, String, List, [], ◌∷◌, ◌++◌, map, ◌==◌,
}
use go_health.Go.Json.{
  Json, str, object, Value, nil, encodable, unsupported, panicking, encoded, items, members,
  sort_keys, text_field, value_field,
}
use go_health.Go.Json.Ascending.{keys, sort_keys-Ascending, sort_keys-Rising, sort_keys-cons}
use go_health.Core.Check.{ComponentStatus}
use go_health.Core.Check.Encode.{strings_field, texts, links_field, component_fields}
use go_health.Core.Check.Encode.Inversion.{component_fields-inv}
use go_health.Core.Check.Schema.{
  Rule, loose, exact, InOrder, HasItems, IsKeyed, text, anything, list, dict, Fields, nothing,
  optional, is_text, is_anything, is_list, is_dict, AllHave, no_item, next_item, AllNamed, no_name,
  next_name, Matches, no_field, kept, left_out, component,
}

pub sort_keys-InOrder :
    {V : Type 0} (r : Rule) (es : List (String × V))
    → IsKeyed r es
    → InOrder r (keys (sort_keys es))
sort_keys-InOrder loose es keyed = sort_keys-Ascending es
sort_keys-InOrder exact es keyed = sort_keys-Rising es keyed

cons-HasItems : {A : Type 0} (r : Rule) (a : A) (l : List A) → HasItems r (a ∷ l)
cons-HasItems loose a l = tt
cons-HasItems exact a l = λ e. cc

module _ (r : Rule) (key : String) {fs : Fields} {es : List (String × Json)}
    (rest : Matches r fs es) where
  pub text_field-Matches : (s : String) → Matches r (optional key text fs) (text_field key s ++ es)
  text_field-Matches s = elim (Bool-cases (s == "")) [
    | inl empty ↦ rw empty (left_out key text rest)
    | inr some_text ↦
        rw some_text (kept key (is_text s) (λ same. ne_of_test s "" some_text cc) rest)
  ]

  value_field-Matches :
      (v : Value) {observed : List (String × Json)}
      → value_field key v ≡ encoded observed
      → Matches r (optional key anything fs) (observed ++ es)
  unfolding value_field
  value_field-Matches nil {observed} h =
      let none_there : observed ≡ [] = cc in rw none_there (left_out key anything rest)
  value_field-Matches (encodable doc) {observed} h =
      let one : observed ≡ (key, doc) ∷ [] = cc in rw one (kept key (is_anything doc) tt rest)
  value_field-Matches (unsupported message) h = cc
  value_field-Matches (panicking message) h = cc

  strings-AllHave : (ss : List String) → AllHave r text (map str ss)
  strings-AllHave [] = no_item
  strings-AllHave (s ∷ ss) = next_item (is_text s) (strings-AllHave ss)

  strings_field-Matches :
      (ss : List String) → Matches r (optional key (list text) fs) (strings_field key ss ++ es)
  unfolding items
  strings_field-Matches [] = left_out key (list text) rest
  strings_field-Matches (s ∷ ss) =
      kept key (is_list (map str (s ∷ ss)) refl (cons-HasItems r _ _) (strings-AllHave (s ∷ ss)))
        (λ h. cc) rest

texts-AllNamed : (r : Rule) (ls : List (String × String)) → AllNamed r text (texts ls)
texts-AllNamed r [] = no_name
texts-AllNamed r ((k, s) ∷ ls) = next_name k (is_text s) (texts-AllNamed r ls)

keys-texts : (ls : List (String × String)) → keys (texts ls) ≡ keys ls
keys-texts [] = refl
keys-texts ((k, s) ∷ ls) = ap (λ ks. k ∷ ks) (keys-texts ls)

pub filled_object :
    (es : List (String × Json)) → es ≢ [] → object (members es) ≢ object (members [])
unfolding members
filled_object [] some_name h = some_name refl
filled_object (e ∷ es) some_name h = cc

filled_texts : (ls : List (String × String)) → ls ≢ [] → texts ls ≢ []
filled_texts [] some_link h = some_link refl
filled_texts (l ∷ ls) some_link h = cc

links_field-Matches :
    (r : Rule) (key : String) (ls : List (String × String))
    → IsKeyed r ls
    → Matches r (optional key (dict text) nothing) (links_field key ls)
links_field-Matches r key [] keyed = left_out key (dict text) no_field
links_field-Matches r key (l ∷ ls) keyed =
    let sorted = sort_keys (l ∷ ls) in
    kept key
      (is_dict (texts sorted) refl
        (subst (InOrder r) (sym (keys-texts sorted)) (sort_keys-InOrder r (l ∷ ls) keyed))
        (texts-AllNamed r sorted))
      (filled_object (texts sorted) (filled_texts sorted (sort_keys-cons l ls))) no_field

pub component_fields-Matches :
    (r : Rule) (cs : ComponentStatus) (fields : List (String × Json))
    → IsKeyed r cs.links
    → component_fields cs ≡ encoded fields
    → Matches r component fields
component_fields-Matches r cs fields keyed h =
    let (observed, valued, same) = component_fields-inv cs fields h in
    rw same (
      text_field-Matches r "componentId"
        (text_field-Matches r "componentType"
          (value_field-Matches r "observedValue"
            (text_field-Matches r "observedUnit"
              (text_field-Matches r "status"
                (strings_field-Matches r "affectedEndpoints"
                  (text_field-Matches r "time"
                    (text_field-Matches r "output" (links_field-Matches r "links" cs.links keyed)
                      cs.output)
                    cs.time)
                  cs.affected_endpoints)
                cs.status)
              cs.observed_unit)
            cs.observed_value valued)
          cs.component_type)
        cs.component_id)
