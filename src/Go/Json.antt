-- ===== src/Go/Json.antt =====
-- encoding/json, as a tree: the text of a document is its tree written out. A value of type `any`
-- is nil, encodes to a document, is refused by the encoder, or panics in a method of its own.
pub mod Order
pub mod Sorted
pub mod Ascending
use Prim.Native.Nat.{Ordering}
use Prim.Native.String.{compare}
use go_health.Prelude.{◌≡◌, refl, String, Bool, true, false, List, [], ◌∷◌, ◌==◌, if◌then◌else◌}

mutual
  pub data Json : Type 0 where
    null : Json
    boolean : Bool → Json
    number : String → Json
    str : String → Json
    array : Items → Json
    object : Members → Json

  pub data Items : Type 0 where
    nil : Items
    item : Json → Items → Items

  pub data Members : Type 0 where
    end : Members
    member : String → Json → Members → Members

pub data Value : Type 0 where
  nil : Value
  encodable : Json → Value
  -- for instance a channel or a NaN: json.UnsupportedTypeError, json.UnsupportedValueError
  unsupported : String → Value
  -- a MarshalJSON method that panics: the encoder passes the panic on
  panicking : String → Value

pub data Encoded {ℓ} (A : Type ℓ) : Type ℓ where
  encoded : A → Encoded A
  failed : String → Encoded A
  panicked : String → Encoded A

infixl 5 ◌>>=◌
abbrev pub ◌>>=◌ {ℓ κ} : {A : Type ℓ} {B : Type κ} → Encoded A → (A → Encoded B) → Encoded B
encoded a >>= f = f a
failed message >>= f = failed message
panicked message >>= f = panicked message

unfoldable pub items : List Json → Items
items [] = nil
items (x ∷ xs) = item x (items xs)

unfoldable pub members : List (String × Json) → Members
members [] = end
members ((k, v) ∷ ms) = member k v (members ms)

abbrev pub before : String → String → Bool
before s t = elim (compare s t) [ Ordering.gt ↦ false | _ ↦ true ]

module _ {ℓ} {V : Type ℓ} where
  insert_key : String × V → List (String × V) → List (String × V)
  insert_key e [] = e ∷ []
  insert_key e (f ∷ fs) = if before e.0 f.0 then e ∷ f ∷ fs else f ∷ insert_key e fs

  -- The encoder writes the keys of a map in order.
  unfoldable pub sort_keys : List (String × V) → List (String × V)
  unfolding insert_key
  sort_keys [] = []
  sort_keys (e ∷ es) = insert_key e (sort_keys es)

-- A struct field with the option `omitempty`: nothing for "", nil or an empty collection.
abbrev pub text_field : String → String → List (String × Json)
text_field key s = if s == "" then [] else (key, str s) ∷ []

unfoldable pub value_field : String → Value → Encoded (List (String × Json))
value_field key nil = encoded []
value_field key (encodable doc) = encoded ((key, doc) ∷ [])
value_field key (unsupported message) = failed message
value_field key (panicking message) = panicked message

-- Inversion of a step of an encoding that succeeded.
pub >>=-eq-encoded {ℓ κ} :
    {A : Type ℓ} {B : Type κ} (m : Encoded A) (f : A → Encoded B) {b : B}
    → (m >>= f) ≡ encoded b
    → (a : A) × (m ≡ encoded a) × (f a ≡ encoded b)
>>=-eq-encoded (encoded a) f h = (a, refl, h)
>>=-eq-encoded (failed message) f h = cc
>>=-eq-encoded (panicked message) f h = cc
