-- ===== src/Go/Json/Ascending.antt =====
-- encoding/json: lists whose keys are in order.
use go_health.Prelude.{◌≡◌, ◌≢◌, refl, sym, true, String, List, [], ◌∷◌, map, Bool-cases, inl, inr}
use go_health.Go.Json.{before, insert_key, sort_keys}
use mathlib.Core.List.Permᴰ as Perms
use go_health.Go.Table.{IsFresh, IsMap, IsMap-perm}
use go_health.Go.Json.Sorted.{sort_keys-Permᴰ}
use go_health.Go.Json.Order.{before_other, before_trans, before-antisym}

abbrev pub Ascending : List String → Type 0
Ascending [] = Unit
Ascending (k ∷ []) = Unit
Ascending (k ∷ j ∷ ks) = (before k j ≡ true) × Ascending (j ∷ ks)

-- In order, each once.
abbrev pub Rising : List String → Type 0
Rising [] = Unit
Rising (k ∷ []) = Unit
Rising (k ∷ j ∷ ks) = (before k j ≡ true) × (k ≢ j) × Rising (j ∷ ks)

pub Rising-Ascending : (ks : List String) → Rising ks → Ascending ks
Rising-Ascending [] h = tt
Rising-Ascending (k ∷ []) h = tt
Rising-Ascending (k ∷ j ∷ ks) (first, _, h) = (first, Rising-Ascending (j ∷ ks) h)

Rising-skip : (k j : String) (ks : List String) → Rising (k ∷ j ∷ ks) → Rising (k ∷ ks)
Rising-skip k j [] h = tt
Rising-skip k j (i ∷ ks) (first, ne, (second, _, h)) = (
  before_trans k j i first second,
  λ same. ne (before-antisym k j first (rw (← same) at second)),
  h,
)

Rising-behind : (k : String) (ks : List String) → Rising (k ∷ ks) → Rising ks
Rising-behind k [] h = tt
Rising-behind k (j ∷ ks) (_, _, h) = h

module _ {V : Type 0} where
  abbrev pub keys : List (String × V) → List String
  keys es = map (λ e. e.0) es

  -- Such a list is as the encoder writes it.
  pub sort_keys-id : (es : List (String × V)) → Ascending (keys es) → sort_keys es ≡ es
  unfolding sort_keys insert_key
  sort_keys-id [] h = refl
  sort_keys-id (e ∷ []) h = refl
  sort_keys-id (e ∷ f ∷ es) (first, h) = rw (sort_keys-id (f ∷ es) h, first) refl

  insert_key-Ascending :
      (e : String × V) (es : List (String × V))
      → Ascending (keys es)
      → Ascending (keys (insert_key e es))
  unfolding insert_key
  insert_key-Ascending e [] h = tt
  insert_key-Ascending e (f ∷ []) h = elim (Bool-cases (before e.0 f.0)) [
    | inl first ↦ rw first (first, tt)
    | inr later ↦ rw later (before_other e.0 f.0 later, tt)
  ]
  insert_key-Ascending e (f ∷ g ∷ es) h = elim (Bool-cases (before e.0 f.0)) [
    | inl first ↦ rw first (first, h)
    | inr later ↦
        let rest = insert_key-Ascending e (g ∷ es) h.1 in
        rw later (elim (Bool-cases (before e.0 g.0)) [
          | inl second ↦ rw second (before_other e.0 f.0 later, (second, h.1))
          | inr beyond ↦ rw beyond (h.0, rw beyond at rest)
        ])
  ]

  insert_key-cons : (e : String × V) (es : List (String × V)) → insert_key e es ≢ []
  unfolding insert_key
  insert_key-cons e [] h = cc
  insert_key-cons e (f ∷ es) h = elim (Bool-cases (before e.0 f.0)) [
    | inl first ↦ cc (rw first at h)
    | inr later ↦ cc (rw later at h)
  ]

  pub sort_keys-cons : (e : String × V) (es : List (String × V)) → sort_keys (e ∷ es) ≢ []
  unfolding sort_keys
  sort_keys-cons e es = insert_key-cons e (sort_keys es)

  pub sort_keys-Ascending : (es : List (String × V)) → Ascending (keys (sort_keys es))
  unfolding sort_keys
  sort_keys-Ascending [] = tt
  sort_keys-Ascending (e ∷ es) = insert_key-Ascending e (sort_keys es) (sort_keys-Ascending es)

  Rising-IsFresh : (k : String) (es : List (String × V)) → Rising (k ∷ keys es) → IsFresh k es
  Rising-IsFresh k [] h = tt
  Rising-IsFresh k ((j, w) ∷ es) h =
      (λ same. h.1 (sym same), Rising-IsFresh k es (Rising-skip k j (keys es) h))

  -- Keys in order, each once, are those of a map.
  pub Rising-IsMap : (es : List (String × V)) → Rising (keys es) → IsMap es
  Rising-IsMap [] h = tt
  Rising-IsMap ((k, v) ∷ es) h =
      (Rising-IsFresh k es h, Rising-IsMap es (Rising-behind k (keys es) h))

  Ascending-Rising : (es : List (String × V)) → IsMap es → Ascending (keys es) → Rising (keys es)
  Ascending-Rising [] once h = tt
  Ascending-Rising (e ∷ []) once h = tt
  Ascending-Rising ((k, v) ∷ (j, w) ∷ es) ((ne, _), once) (first, h) =
      (first, λ same. ne (sym same), Ascending-Rising ((j, w) ∷ es) once h)

  -- The keys of a map, as the encoder writes them.
  pub sort_keys-Rising : (es : List (String × V)) → IsMap es → Rising (keys (sort_keys es))
  sort_keys-Rising es once =
      Ascending-Rising (sort_keys es) (IsMap-perm (Perms.symm (sort_keys-Permᴰ es)) once)
        (sort_keys-Ascending es)
