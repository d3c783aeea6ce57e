-- ===== src/Go/Json/Sorted.antt =====
-- encoding/json: the order of the keys of a map.
use mathlib.Core.List.{Permᴰ}
use mathlib.Core.List.Permᴰ as Perms
use go_health.Go.Table.{IsMap, IsMap-perm}
use go_health.Go.Json.Order.{before_trans, before-antisym, before_other}
use go_health.Prelude.{
  ◌≡◌, refl, ap, sym, ◌∙◌, ◌≢◌, arith, ◌↔◌, String, List, [], ◌∷◌, map, All, Bool-cases, inl, inr,
}
use go_health.Go.Json.{before, insert_key, sort_keys}

module _ {V : Type 0} (P : String × V → Type 0) where
  insert_key-All :
      (e : String × V) (es : List (String × V)) → All P (insert_key e es) ↔ (P e × All P es)
  unfolding insert_key
  insert_key-All e [] = (λ h. h, λ h. h)
  insert_key-All e (f ∷ fs) = elim (Bool-cases (before e.0 f.0)) [
    | inl first ↦ rw first (λ h. h, λ h. h)
    | inr later ↦
        let (to, from) = insert_key-All e fs in
        rw later
          (λ h. let (pe, rest) = to h.1 in (pe, (h.0, rest)), λ h. (h.1.0, from (h.0, h.1.1)))
  ]

  pub sort_keys-All : (es : List (String × V)) → All P (sort_keys es) ↔ All P es
  unfolding sort_keys
  sort_keys-All [] = (λ h. h, λ h. h)
  sort_keys-All (e ∷ es) =
      let (to, from) = insert_key-All e (sort_keys es) in
      let (to_rest, from_rest) = sort_keys-All es in
      (λ h. let (pe, rest) = to h in (pe, to_rest rest), λ h. from (h.0, from_rest h.1))

module _ {V : Type 0} where
  -- Two entries with different keys may be inserted in either order.
  insert_key_swap :
      (e f : String × V) (es : List (String × V))
      → e.0 ≢ f.0
      → insert_key e (insert_key f es) ≡ insert_key f (insert_key e es)
  unfolding insert_key
  insert_key_swap e f [] ne = ground (arith, before_other e.0 f.0, before-antisym e.0 f.0)
  insert_key_swap e f (g ∷ gs) ne = ground (
    arith,
    before_other e.0 f.0,
    before-antisym e.0 f.0,
    before_trans e.0 f.0 g.0,
    before_trans f.0 e.0 g.0,
    insert_key_swap e f gs ne,
  )

  -- A map has one order of its keys.
  pub sort_keys-perm :
      {es fs : List (String × V)} → Permᴰ es fs → IsMap es → sort_keys es ≡ sort_keys fs
  unfolding sort_keys
  sort_keys-perm Permᴰ.nil h = refl
  sort_keys-perm (Permᴰ.cons {a} {b} {l₁} e d) (fresh, h) =
      ap (λ x. insert_key x (sort_keys l₁)) e ∙ ap (insert_key b) (sort_keys-perm d h)
  sort_keys-perm (Permᴰ.swap {a} {b} {l} e f) ((ne, fresh), (fresh', h)) =
      insert_key_swap a b (sort_keys l) (λ p. ne (sym p))
      ∙ (λ i. insert_key (f i) (insert_key (e i) (sort_keys l)))
  sort_keys-perm (Permᴰ.trans d d') h = sort_keys-perm d h ∙ sort_keys-perm d' (IsMap-perm d h)

  insert_key-Permᴰ : (e : String × V) (es : List (String × V)) → Permᴰ (insert_key e es) (e ∷ es)
  unfolding insert_key
  insert_key-Permᴰ e [] = Perms.refl (e ∷ [])
  insert_key-Permᴰ e (f ∷ fs) = elim (Bool-cases (before e.0 f.0)) [
    | inl first ↦ rw first (Perms.refl (e ∷ f ∷ fs))
    | inr later ↦
        rw later (Permᴰ.trans (Permᴰ.cons refl (insert_key-Permᴰ e fs)) (Permᴰ.swap refl refl))
  ]

  -- The entries stay the same.
  pub sort_keys-Permᴰ : (es : List (String × V)) → Permᴰ (sort_keys es) es
  unfolding sort_keys
  sort_keys-Permᴰ [] = Permᴰ.nil
  sort_keys-Permᴰ (e ∷ es) =
      Permᴰ.trans (insert_key-Permᴰ e (sort_keys es)) (Permᴰ.cons refl (sort_keys-Permᴰ es))

-- A function on the values leaves the order alone.
module _ {V W : Type 0} (f : V → W) where
  abbrev on_values : List (String × V) → List (String × W)
  on_values es = map (λ e. (e.0, f e.1)) es

  insert_key-map :
      (k : String) (v : V) (es : List (String × V))
      → insert_key (k, f v) (on_values es) ≡ on_values (insert_key (k, v) es)
  unfolding insert_key
  insert_key-map k v [] = refl
  insert_key-map k v ((j, w) ∷ es) = elim (Bool-cases (before k j)) [
    | inl first ↦ rw first refl
    | inr later ↦ rw later (ap (λ rest. (j, f w) ∷ rest) (insert_key-map k v es))
  ]

  pub sort_keys-map : (es : List (String × V)) → sort_keys (on_values es) ≡ on_values (sort_keys es)
  unfolding sort_keys
  sort_keys-map [] = refl
  sort_keys-map ((k, v) ∷ es) =
      ap (insert_key (k, f v)) (sort_keys-map es) ∙ insert_key-map k v (sort_keys es)
