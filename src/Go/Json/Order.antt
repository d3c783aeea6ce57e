-- ===== src/Go/Json/Order.antt =====
-- The order of the keys: by the code points of their characters.
use Prim.Native.Char.{code}
use Prim.Native.String.compare
use text.Mathlib.TextEquality.{Char-path}
use go_health.Prelude.{◌<◌, ◌≡◌, refl, ◌⊎◌, ◌↔◌, inl, inr, String, true, false, arith}
use go_health.Go.Json.{before}

-- The order as a relation.
abbrev Below : String → String → Type 0
Below String.[] t = Unit
Below (String.◌∷◌ c s) String.[] = ⊥
Below (String.◌∷◌ c s) (String.◌∷◌ d t) = (code c < code d) ⊎ ((code c ≡ code d) × Below s t)

before-Below : (s t : String) → (before s t ≡ true) ↔ Below s t
before-Below String.[] String.[] = (λ h. tt, λ h. refl)
before-Below String.[] (String.◌∷◌ d t) = rw (compare.nil-cons d t, before) (λ h. tt, λ h. refl)
before-Below (String.◌∷◌ c s) String.[] = rw (compare.cons-nil c s, before) (λ h. cc, λ h. absurd h)
before-Below (String.◌∷◌ c s) (String.◌∷◌ d t) =
    rw (compare.cons-cons c d s t, before) (ground (arith, before-Below s t))

Below-trans : (s t u : String) → Below s t → Below t u → Below s u
Below-trans String.[] t u h k = tt
Below-trans (String.◌∷◌ c s) String.[] u h k = absurd h
Below-trans (String.◌∷◌ c s) (String.◌∷◌ d t) String.[] h k = absurd k
Below-trans (String.◌∷◌ c s) (String.◌∷◌ d t) (String.◌∷◌ e u) h k =
    ground (arith, Below-trans s t u)

Below-antisym : (s t : String) → Below s t → Below t s → s ≡ t
Below-antisym String.[] String.[] h k = refl
Below-antisym String.[] (String.◌∷◌ d t) h k = absurd k
Below-antisym (String.◌∷◌ c s) String.[] h k = absurd h
Below-antisym (String.◌∷◌ c s) (String.◌∷◌ d t) h k = elim h [
  | inl lower ↦ elim k [ inl above ↦ absurd (omega arith) | inr (same, _) ↦ absurd (omega arith) ]
  | inr (same, here) ↦ elim k [
    | inl above ↦ absurd (omega arith)
    | inr (_, back) ↦ λ i. String.◌∷◌ (Char-path c d same i) (Below-antisym s t here back i)
  ]
]

Below-total : (s t : String) → Below s t ⊎ Below t s
Below-total String.[] t = inl tt
Below-total (String.◌∷◌ c s) String.[] = inr tt
Below-total (String.◌∷◌ c s) (String.◌∷◌ d t) = ground (arith, Below-total s t)

pub before_trans : (s t u : String) → before s t ≡ true → before t u ≡ true → before s u ≡ true
before_trans s t u h k =
    (before-Below s u).1 (Below-trans s t u ((before-Below s t).0 h) ((before-Below t u).0 k))

pub before-antisym : (s t : String) → before s t ≡ true → before t s ≡ true → s ≡ t
before-antisym s t h k = Below-antisym s t ((before-Below s t).0 h) ((before-Below t s).0 k)

-- Of two different texts, exactly one is before the other.
pub before_other : (s t : String) → before s t ≡ false → before t s ≡ true
before_other s t h = elim (Below-total s t) [
  | inl below ↦ cc ((before-Below s t).1 below)
  | inr above ↦ (before-Below t s).1 above
]
