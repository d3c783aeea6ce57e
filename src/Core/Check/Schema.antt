-- ===== src/Core/Check/Schema.antt =====
-- core/check.go: the shape of a document, as the struct types and their `json` tags describe it.
pub mod Components
pub mod Typed
pub mod Inversion
pub mod Exact
use go_health.Prelude.{◌≡◌, ◌≢◌, String, List, [], ◌∷◌, map, All}
use go_health.Go.Json.{Json, str, array, object, Items, Members, items, members, before}
use go_health.Go.Json.Ascending.{Ascending, Rising}
use go_health.Go.Table.{IsMap}
use go_health.Core.Check.{ComponentStatus, HealthResponse}

mutual
  pub data Schema : Type 0 where
    text : Schema
    anything : Schema
    list : Schema → Schema
    -- a map, with its keys in order
    dict : Schema → Schema
    struct : Fields → Schema

  -- The fields of a struct, in order, with their tags; an optional one has `omitempty`.
  pub data Fields : Type 0 where
    nothing : Fields
    required : String → Schema → Fields → Fields
    optional : String → Schema → Fields → Fields

-- What `omitempty` leaves of a field: no empty text, list or map. An interface is left out only where
-- it is nil.
abbrev pub IsFilled : Schema → Json → Type 0
IsFilled text doc = doc ≢ str ""
IsFilled (list σ) doc = doc ≢ array (items [])
IsFilled (dict σ) doc = doc ≢ object (members [])
IsFilled σ doc = Unit

-- What is asked of lists and maps. `loose`: the names of a map are in order. `exact`: each stands once
-- as well, and no list is empty.
pub data Rule : Type 0 where
  loose exact : Rule

abbrev pub InOrder : Rule → List String → Type 0
InOrder loose ks = Ascending ks
InOrder exact ks = Rising ks

abbrev pub HasItems : {A : Type 0} → Rule → List A → Type 0
HasItems loose l = Unit
HasItems exact l = l ≢ []

mutual
  -- Documents that have a shape.
  pub data Shaped (r : Rule) : Schema → Json → Type 0 where
    is_text : (s : String) → Shaped r text (str s)
    is_anything : (doc : Json) → Shaped r anything doc
    is_list :
        {σ : Schema} {docs : Items} (ds : List Json)
        → docs ≡ items ds
        → HasItems r ds
        → AllHave r σ ds
        → Shaped r (list σ) (array docs)
    is_dict :
        {σ : Schema} {ms : Members} (es : List (String × Json))
        → ms ≡ members es
        → InOrder r (map (λ e. e.0) es)
        → AllNamed r σ es
        → Shaped r (dict σ) (object ms)
    is_struct :
        {fs : Fields} {ms : Members} (es : List (String × Json))
        → ms ≡ members es
        → Matches r fs es
        → Shaped r (struct fs) (object ms)

  pub data AllHave (r : Rule) : Schema → List Json → Type 0 where
    no_item : {σ : Schema} → AllHave r σ []
    next_item :
        {σ : Schema} {doc : Json} {ds : List Json}
        → Shaped r σ doc
        → AllHave r σ ds
        → AllHave r σ (doc ∷ ds)

  pub data AllNamed (r : Rule) : Schema → List (String × Json) → Type 0 where
    no_name : {σ : Schema} → AllNamed r σ []
    next_name :
        {σ : Schema} {doc : Json} {es : List (String × Json)} (name : String)
        → Shaped r σ doc
        → AllNamed r σ es
        → AllNamed r σ ((name, doc) ∷ es)

  -- The members of an object against the fields of a struct.
  pub data Matches (r : Rule) : Fields → List (String × Json) → Type 0 where
    no_field : Matches r nothing []
    present :
        {fs : Fields} {σ : Schema} {doc : Json} {es : List (String × Json)} (key : String)
        → Shaped r σ doc
        → Matches r fs es
        → Matches r (required key σ fs) ((key, doc) ∷ es)
    kept :
        {fs : Fields} {σ : Schema} {doc : Json} {es : List (String × Json)} (key : String)
        → Shaped r σ doc
        → IsFilled σ doc
        → Matches r fs es
        → Matches r (optional key σ fs) ((key, doc) ∷ es)
    left_out :
        {fs : Fields} {es : List (String × Json)} (key : String) (σ : Schema)
        → Matches r fs es
        → Matches r (optional key σ fs) es

abbrev pub HasType : Schema → Json → Type 0
HasType σ doc = Shaped loose σ doc

-- A list of entries as a map of Go, with each key once.
abbrev pub IsKeyed : {V : Type 0} → Rule → List (String × V) → Type 0
IsKeyed loose es = Unit
IsKeyed exact es = IsMap es

-- A list of components, with the links of each.
abbrev pub AreProper : Rule → List ComponentStatus → Type 0
AreProper r found = HasItems r found × All (λ cs. IsKeyed r cs.links) found

-- A response by the rule; by `exact`, its maps are maps, and there is a component under each name.
abbrev pub IsProper : Rule → HealthResponse → Type 0
IsProper r response = IsKeyed r response.checks × All (λ e. AreProper r e.1) response.checks

-- ComponentStatus and HealthResponse.
abbrev pub component : Fields
component = optional "componentId" text (
    optional "componentType" text (
      optional "observedValue" anything (
        optional "observedUnit" text (
          optional "status" text (
            optional "affectedEndpoints" (list text) (
              optional "time" text
                (optional "output" text (optional "links" (dict text) nothing))))))))

abbrev pub response_fields : Fields
response_fields = required "status" text (
    optional "serviceId" text
      (optional "description" text (optional "checks" (dict (list (struct component))) nothing)))

abbrev pub health : Schema
health = struct response_fields
