-- ===== src/Core/Check/Decode/RoundTrip.antt =====
-- What was encoded reads back.
use go_health.Prelude.{
  ◌≡◌, refl, sym, ap, ◌∙◌, inl, inr, Bool-cases, eq_of_test, String, List, [], ◌∷◌, ◌++◌, map,
  Option, some, ◌==◌,
}
use go_health.Go.Json.{
  Json, str, array, object, nil, Value, encodable, unsupported, panicking, encoded, items, members,
  sort_keys, text_field, value_field, >>=-eq-encoded,
}
use go_health.Core.Check.{ComponentStatus, HealthResponse}
use go_health.Core.Check.Encode.{
  strings_field, texts, links_field, component_fields, encode_components, encode_checks,
  object_field, encode,
}
use go_health.Core.Check.Encode.Inversion.{
  component_fields-inv, encode_components-nil, encode_components-inv, encode_checks-nil,
  encode_checks-inv,
}
use go_health.Core.Check.Decode.{
  decode_members, decode_value, decode_items, decode_texts, decode_checks, set_component,
  decode_component, decode_components, decode, set_response,
}

-- What a document keeps of a value, a component and a response: null reads as nil, and the keys of a
-- map are in order.
abbrev pub canonical_value : Value → Value
canonical_value (encodable doc) = decode_value doc
canonical_value v = v

abbrev pub canonical_component : ComponentStatus → ComponentStatus
canonical_component cs = record cs {
  observed_value = canonical_value cs.observed_value;
  links = sort_keys cs.links;
}

abbrev pub canonical_checks :
    List (String × List ComponentStatus) → List (String × List ComponentStatus)
canonical_checks checks = map (λ e. (e.0, map canonical_component e.1)) checks

abbrev pub canonical : HealthResponse → HealthResponse
canonical response = record response { checks = canonical_checks (sort_keys response.checks) }

module _ {A : Type 0} (set : A → String → Json → Option A) where
  abbrev after : List (String × Json) → A → Option A
  after fields acc = decode_members set (members fields) acc

  read-text_field :
      (key s : String) (put : A → String → A) (rest : List (String × Json)) (acc : A)
      → ((t : String) → set acc key (str t) ≡ some (put acc t))
      → put acc "" ≡ acc
      → after (text_field key s ++ rest) acc ≡ after rest (put acc s)
  unfolding decode_members members
  read-text_field key s put rest acc sets zero = elim (Bool-cases (s == "")) [
    | inl same ↦ rw same (ap (after rest) (sym (ap (put acc) (eq_of_test s "" same) ∙ zero)))
    | inr other ↦ rw (other, sets s) refl
  ]

  read-value_field :
      (key : String) (v : Value) (put : A → Value → A) (rest : List (String × Json)) (acc : A)
      {fields : List (String × Json)}
      → ((doc : Json) → set acc key doc ≡ some (put acc (decode_value doc)))
      → put acc nil ≡ acc
      → value_field key v ≡ encoded fields
      → after (fields ++ rest) acc ≡ after rest (put acc (canonical_value v))
  unfolding decode_members members value_field
  read-value_field key nil put rest acc {fields} sets zero h =
      let none_there : fields ≡ [] = cc in rw none_there (ap (after rest) (sym zero))
  read-value_field key (encodable doc) put rest acc {fields} sets zero h =
      let one : fields ≡ (key, doc) ∷ [] = cc in rw (one, sets doc) refl
  read-value_field key (unsupported message) put rest acc sets zero h = cc
  read-value_field key (panicking message) put rest acc sets zero h = cc

  read-strings_field :
      (key : String) (ss : List String) (put : A → List String → A) (rest : List (String × Json))
      (acc : A)
      → ((ts : List String) → set acc key (array (items (map str ts))) ≡ some (put acc ts))
      → put acc [] ≡ acc
      → after (strings_field key ss ++ rest) acc ≡ after rest (put acc ss)
  unfolding decode_members members
  read-strings_field key [] put rest acc sets zero = ap (after rest) (sym zero)
  read-strings_field key (s ∷ ss) put rest acc sets zero = rw (sets (s ∷ ss)) refl

  read-links_field :
      (key : String) (ls : List (String × String)) (put : A → List (String × String) → A) (acc : A)
      → ((ms : List (String × String))
          → set acc key (object (members (texts ms))) ≡ some (put acc ms))
      → put acc [] ≡ acc
      → after (links_field key ls) acc ≡ some (put acc (sort_keys ls))
  unfolding decode_members members sort_keys
  read-links_field key [] put acc sets zero = ap some (sym zero)
  read-links_field key (l ∷ ls) put acc sets zero = rw (sets (sort_keys (l ∷ ls))) refl

decode_items-map : (ss : List String) → decode_items (items (map str ss)) ≡ some ss
unfolding decode_items items
decode_items-map [] = refl
decode_items-map (s ∷ ss) = rw (decode_items-map ss) refl

decode_texts-texts : (ms : List (String × String)) → decode_texts (members (texts ms)) ≡ some ms
unfolding decode_texts members
decode_texts-texts [] = refl
decode_texts-texts ((k, s) ∷ ms) = rw (decode_texts-texts ms) refl

decode_component-members :
    (cs : ComponentStatus) (fields : List (String × Json))
    → component_fields cs ≡ encoded fields
    → decode_component (object (members fields)) ≡ some (canonical_component cs)
decode_component-members cs fields h =
    let (observed, valued, same) = component_fields-inv cs fields h in
    rw same (
      read-text_field set_component "componentId" cs.component_id
        (λ a s. record a { component_id = s }) _ _ (λ t. refl) refl
      ∙ read-text_field set_component "componentType" cs.component_type
          (λ a s. record a { component_type = s }) _ _ (λ t. refl) refl
      ∙ read-value_field set_component "observedValue" cs.observed_value
          (λ a v. record a { observed_value = v }) _ _ (λ doc. refl) refl valued
      ∙ read-text_field set_component "observedUnit" cs.observed_unit
          (λ a s. record a { observed_unit = s }) _ _ (λ t. refl) refl
      ∙ read-text_field set_component "status" cs.status (λ a s. record a { status = s }) _ _
          (λ t. refl) refl
      ∙ read-strings_field set_component "affectedEndpoints" cs.affected_endpoints
          (λ a ss. record a { affected_endpoints = ss }) _ _ (λ ts. rw (decode_items-map ts) refl)
          refl
      ∙ read-text_field set_component "time" cs.time (λ a s. record a { time = s }) _ _ (λ t. refl)
          refl
      ∙ read-text_field set_component "output" cs.output (λ a s. record a { output = s }) _ _
          (λ t. refl) refl
      ∙ read-links_field set_component "links" cs.links (λ a ls. record a { links = ls }) _
          (λ ms. rw (decode_texts-texts ms) refl) refl)

decode_components-items :
    (list : List ComponentStatus) (docs : List Json)
    → encode_components list ≡ encoded docs
    → decode_components (items docs) ≡ some (map canonical_component list)
unfolding decode_components items
decode_components-items [] docs h = rw (encode_components-nil docs h) refl
decode_components-items (cs ∷ list) docs h =
    let (fields, later, first, second, same) = encode_components-inv cs list docs h in
    rw (same, decode_component-members cs fields first, decode_components-items list later second)
      refl

decode_checks-members :
    (checks : List (String × List ComponentStatus)) (docs : List (String × Json))
    → encode_checks checks ≡ encoded docs
    → decode_checks (members docs) ≡ some (canonical_checks checks)
unfolding decode_checks members
decode_checks-members [] docs h = rw (encode_checks-nil docs h) refl
decode_checks-members ((name, list) ∷ checks) docs h =
    let (here, later, first, second, same) = encode_checks-inv name list checks docs h in
    rw (same, decode_components-items list here first, decode_checks-members checks later second)
      refl

read-object_field :
    (checks : List (String × List ComponentStatus)) (docs : List (String × Json))
    (acc : HealthResponse)
    → encode_checks checks ≡ encoded docs
    → acc.checks ≡ []
    → after set_response (object_field "checks" docs) acc
      ≡ some (record acc { checks = canonical_checks checks })
unfolding decode_members members
read-object_field checks (d ∷ docs) acc h empty =
    rw (decode_checks-members checks (d ∷ docs) h) refl
read-object_field [] [] acc h empty = ap (λ c. some (record acc { checks = c })) empty
read-object_field ((name, list) ∷ checks) [] acc h empty =
    let (here, later, first, second, other) = encode_checks-inv name list checks [] h in cc

-- The document of a response, read back by the tags, is the response, less what the document
-- cannot tell: a value that encodes to null reads as nil, and the keys of the maps are in order.
pub decode-encode :
    (response : HealthResponse) (doc : Json)
    → encode response ≡ encoded doc
    → decode doc ≡ some (canonical response)
unfolding encode decode decode_members members
decode-encode response doc h =
    let (docs, checks, whole) = >>=-eq-encoded (encode_checks (sort_keys response.checks)) _ h in
    let same : doc
        ≡ object (
            members (
              ("status", str response.status) ∷ text_field "serviceId" response.service_id
              ++ (text_field "description" response.description ++ object_field "checks" docs))) =
      cc in
    rw same (
      read-text_field set_response "serviceId" response.service_id
        (λ r s. record r { service_id = s }) _ _ (λ t. refl) refl
      ∙ read-text_field set_response "description" response.description
          (λ r s. record r { description = s }) _ _ (λ t. refl) refl
      ∙ read-object_field (sort_keys response.checks) docs _ checks refl)
