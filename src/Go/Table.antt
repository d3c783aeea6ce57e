-- ===== src/Go/Table.antt =====
-- map[string]V: the entries in some order, each key once. Iteration in Go visits them in an order
-- that the language leaves open, so statements about a loop hold for every permutation.
use text.Mathlib.TextEquality.{eq_iff}
use mathlib.Core.Path.{subst, subst₂}
use mathlib.Core.List.{Permᴰ}
use go_health.Prelude.{
  ◌≢◌, ◌∙◌, sym, ap, All, Bool-cases, inl, inr, ne_of_test, ◌≡◌, refl, String, List, [], ◌∷◌, ◌++◌,
  Option, none, some, arith, ◌==◌, if◌then◌else◌,
}

module _ {ℓ} {V : Type ℓ} where
  -- v, ok := m[k]
  unfoldable pub lookup : String → List (String × V) → Option V
  lookup k [] = none
  lookup k ((j, v) ∷ m) = if j == k then some v else lookup k m

  -- m[k] = v
  unfoldable pub assign : String → V → List (String × V) → List (String × V)
  assign k v [] = (k, v) ∷ []
  assign k v ((j, w) ∷ m) = if j == k then (j, v) ∷ m else (j, w) ∷ assign k v m

  pub lookup-assign :
      (k j : String) (v : V) (m : List (String × V))
      → lookup j (assign k v m) ≡ (if k == j then some v else lookup j m)
  unfolding lookup assign
  lookup-assign k j v [] = refl
  lookup-assign k j v ((i, w) ∷ m) =
      ground (arith, eq_iff k j, eq_iff i k, eq_iff i j, lookup-assign k j v m)

  -- The first of two tables comes first.
  abbrev pub or_else : Option V → Option V → Option V
  or_else none o = o
  or_else (some v) o = some v

  pub lookup-append :
      (k : String) (m n : List (String × V)) → lookup k (m ++ n) ≡ or_else (lookup k m) (lookup k n)
  unfolding lookup
  lookup-append k [] n = refl
  lookup-append k ((j, v) ∷ m) n = ground (arith, lookup-append k m n)

module _ {V : Type 0} where
  abbrev pub IsFresh : String → List (String × V) → Type 0
  IsFresh k m = All (λ e. e.0 ≢ k) m

  -- Each key stands once: what makes a list of entries a map.
  abbrev pub IsMap : List (String × V) → Type 0
  IsMap [] = Unit
  IsMap ((k, v) ∷ m) = IsFresh k m × IsMap m

  assign-IsFresh :
      (k j : String) (v : V) (m : List (String × V))
      → k ≢ j
      → IsFresh j m
      → IsFresh j (assign k v m)
  unfolding assign
  assign-IsFresh k j v [] ne fresh = (ne, tt)
  assign-IsFresh k j v ((i, w) ∷ m) ne (here, later) = elim (Bool-cases (i == k)) [
    | inl same ↦ rw same (here, later)
    | inr other ↦ rw other (here, assign-IsFresh k j v m ne later)
  ]

  -- m[k] = v keeps a map a map.
  pub assign-IsMap : (k : String) (v : V) (m : List (String × V)) → IsMap m → IsMap (assign k v m)
  unfolding assign
  assign-IsMap k v [] _ = (tt, tt)
  assign-IsMap k v ((i, w) ∷ m) (fresh, later) = elim (Bool-cases (i == k)) [
    | inl same ↦ rw same (fresh, later)
    | inr other ↦
        rw other (
          assign-IsFresh k i v m (λ e. ne_of_test i k other (sym e)) fresh,
          assign-IsMap k v m later,
        )
  ]

  IsFresh-perm : (k : String) {m n : List (String × V)} → Permᴰ m n → IsFresh k m → IsFresh k n
  IsFresh-perm k Permᴰ.nil h = tt
  IsFresh-perm k (Permᴰ.cons e d) (here, later) =
      (λ p. here (ap (λ x. x.0) e ∙ p), IsFresh-perm k d later)
  IsFresh-perm k (Permᴰ.swap e f) (here, (there, later)) =
      (λ p. there (ap (λ x. x.0) f ∙ p), (λ p. here (ap (λ x. x.0) e ∙ p), later))
  IsFresh-perm k (Permᴰ.trans d d') h = IsFresh-perm k d' (IsFresh-perm k d h)

  pub IsMap-perm : {m n : List (String × V)} → Permᴰ m n → IsMap m → IsMap n
  IsMap-perm Permᴰ.nil h = tt
  IsMap-perm (Permᴰ.cons {l₂} e d) (fresh, later) =
      subst (λ x. IsMap (x ∷ l₂)) e (IsFresh-perm _ d fresh, IsMap-perm d later)
  IsMap-perm (Permᴰ.swap {l} e f) ((ne, fresh), (fresh', later)) =
      subst₂ (λ x y. IsMap (x ∷ y ∷ l)) f e (((λ p. ne (sym p)), fresh'), (fresh, later))
  IsMap-perm (Permᴰ.trans d d') h = IsMap-perm d' (IsMap-perm d h)
