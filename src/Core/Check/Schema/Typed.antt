-- ===== src/Core/Check/Schema/Typed.antt =====
-- core/check.go: documents of the encoder against the schema of the response.
use mathlib.Core.Path.{subst}
use go_health.Prelude.{◌≡◌, refl, sym, ap, String, List, [], ◌∷◌, All, All-perm}
use go_health.Go.Json.{Json, encoded, sort_keys, >>=-eq-encoded}
use go_health.Go.Json.Ascending.{keys}
use go_health.Go.Json.Sorted.{sort_keys-Permᴰ}
use go_health.Core.Check.{ComponentStatus, HealthResponse}
use go_health.Core.Check.Encode.{encode_components, encode_checks, object_field, encode}
use go_health.Core.Check.Encode.Inversion.{
  encode_components-nil, encode_components-inv, encode_checks-nil, encode_checks-inv,
}
use go_health.Core.Check.Schema.{
  Rule, loose, exact, InOrder, HasItems, IsKeyed, AreProper, IsProper, Shaped, Schema, list, dict,
  struct, nothing, optional, HasType, is_text, is_list, is_dict, is_struct, AllHave, no_item,
  next_item, AllNamed, no_name, next_name, Matches, no_field, present, kept, left_out, component,
  health,
}
use go_health.Core.Check.Schema.Components.{
  sort_keys-InOrder, component_fields-Matches, filled_object, text_field-Matches,
}

encode_components-AllHave :
    (r : Rule) (found : List ComponentStatus) (docs : List Json)
    → All (λ cs. IsKeyed r cs.links) found
    → encode_components found ≡ encoded docs
    → AllHave r (struct component) docs
encode_components-AllHave r [] docs keyed h = rw (encode_components-nil docs h) no_item
encode_components-AllHave r (cs ∷ found) docs (here, keyed) h =
    let (fields, later, first, second, same) = encode_components-inv cs found docs h in
    rw same (
      next_item (is_struct fields refl (component_fields-Matches r cs fields here first))
        (encode_components-AllHave r found later keyed second))

encode_components-HasItems :
    (r : Rule) (found : List ComponentStatus) (docs : List Json)
    → HasItems r found
    → encode_components found ≡ encoded docs
    → HasItems r docs
encode_components-HasItems loose found docs filled h = tt
encode_components-HasItems exact [] docs filled h = absurd (filled refl)
encode_components-HasItems exact (cs ∷ found) docs filled h =
    let (fields, later, first, second, same) = encode_components-inv cs found docs h in λ empty. cc

encode_checks-AllNamed :
    (r : Rule) (checks : List (String × List ComponentStatus)) (docs : List (String × Json))
    → All (λ e. AreProper r e.1) checks
    → encode_checks checks ≡ encoded docs
    → AllNamed r (list (struct component)) docs × (keys docs ≡ keys checks)
encode_checks-AllNamed r [] docs proper h = rw (encode_checks-nil docs h) (no_name, refl)
encode_checks-AllNamed r ((name, found) ∷ checks) docs ((filled, keyed), proper) h =
    let (here, later, first, second, same) = encode_checks-inv name found checks docs h in
    let (typed, named) = encode_checks-AllNamed r checks later proper second in
    rw same (
      next_name name
          (is_list here refl (encode_components-HasItems r found here filled first)
            (encode_components-AllHave r found here keyed first))
          typed,
      ap (λ ks. name ∷ ks) named,
    )

object_field-Matches :
    (r : Rule) (key : String) (σ : Schema) (docs : List (String × Json))
    → InOrder r (keys docs)
    → AllNamed r σ docs
    → Matches r (optional key (dict σ) nothing) (object_field key docs)
object_field-Matches r key σ [] h typed = left_out key (dict σ) no_field
object_field-Matches r key σ (d ∷ docs) h typed =
    kept key (is_dict (d ∷ docs) refl h typed) (filled_object (d ∷ docs) (λ e. cc)) no_field

encoded-inv : {A : Type 0} {a b : A} → encoded a ≡ encoded b → a ≡ b
encoded-inv h = cc

-- What the encoder writes for a response that is as the rule asks has the shape that the struct types
-- and their tags describe.
pub encode-Shaped :
    (r : Rule) (response : HealthResponse) (doc : Json)
    → IsProper r response
    → encode response ≡ encoded doc
    → Shaped r health doc
unfolding encode
encode-Shaped r response doc (keyed, proper) h =
    let sorted = sort_keys response.checks in
    let (docs, checked, last) = >>=-eq-encoded (encode_checks sorted) _ h in
    let all = All-perm (λ e. AreProper r e.1) (sort_keys-Permᴰ response.checks) proper in
    let (typed, named) = encode_checks-AllNamed r sorted docs all checked in
    subst (Shaped r health) (encoded-inv last) (
      is_struct _ refl (
        present "status" (is_text response.status) (
          text_field-Matches r "serviceId"
            (text_field-Matches r "description"
              (object_field-Matches r "checks" (list (struct component)) docs
                (subst (InOrder r) (sym named) (sort_keys-InOrder r response.checks keyed)) typed)
              response.description)
            response.service_id)))

loose-AllKeyed : (found : List ComponentStatus) → All (λ cs. IsKeyed loose cs.links) found
loose-AllKeyed [] = tt
loose-AllKeyed (cs ∷ found) = (tt, loose-AllKeyed found)

loose-AllProper :
    (checks : List (String × List ComponentStatus)) → All (λ e. AreProper loose e.1) checks
loose-AllProper [] = tt
loose-AllProper ((name, found) ∷ checks) = ((tt, loose-AllKeyed found), loose-AllProper checks)

-- The document of any response: the fields in order, each of its type, nothing empty but a status or
-- an observed value, and the keys of each map in order.
pub encode-HasType :
    (response : HealthResponse) (doc : Json) → encode response ≡ encoded doc → HasType health doc
encode-HasType response doc h =
    encode-Shaped loose response doc (tt, loose-AllProper response.checks) h
