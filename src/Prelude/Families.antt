-- ===== src/Prelude/Families.antt =====
-- Families indexed by number: an update at one index, the count of the first indices that pass a test,
-- and the list of the first values.
use Prim.Native.Nat.{ℕ, zero, suc, ◌+◌, ◌*◌, ◌≤◌, ◌<◌, compare, Ordering}
use mathlib.Core.Path.{◌≡◌, refl}
use mathlib.Core.Logic.{◌≢◌, ◌⊎◌, inl, inr}
use mathlib.Core.Bool.{Bool, true, false}
use mathlib.Core.List.{List, [], ◌∷◌}
use native.Mathlib.Omega.{arith}
use native.Mathlib.Decide.{dec_lt}
use mathlib.Core.Option.{some}
use go_health.Prelude.Lists.{length, get_elem?}
use go_health.Prelude.Tests.{if◌then◌else◌}

abbrev pub same_index : ℕ → ℕ → Bool
same_index i j = elim (compare i j) [ Ordering.eq ↦ true | _ ↦ false ]

module _ {A : Type 0} where
  abbrev pub update : (ℕ → A) → ℕ → A → ℕ → A
  update f i a j = if same_index i j then a else f j

  -- f 0, …, f (n - 1)
  abbrev pub tabulate : ℕ → (ℕ → A) → List A
  tabulate zero f = []
  tabulate (suc n) f = f 0 ∷ tabulate n (λ i. f (suc i))

  -- How many of the first `n` values pass the test.
  pub count : (A → Bool) → ℕ → (ℕ → A) → ℕ
  count p zero f = 0
  count p (suc n) f = count p n f + (if p (f n) then 1 else 0)

  count-update_above :
      (p : A → Bool) (n : ℕ) (f : ℕ → A) (i : ℕ) (a : A)
      → n ≤ i
      → count p n (update f i a) ≡ count p n f
  unfolding count
  count-update_above p zero f i a h = refl
  count-update_above p (suc n) f i a h = ground (arith, count-update_above p n f i a)

  -- A value that starts to pass is one more, one that stops is one less.
  pub count-update :
      (p : A → Bool) (n : ℕ) (f : ℕ → A) (i : ℕ) (a : A)
      → i < n
      → count p n (update f i a) + (if p (f i) then 1 else 0) ≡ count p n f + (if p a then 1 else 0)
  unfolding count
  count-update p zero f i a h = absurd (omega arith)
  count-update p (suc n) f i a h = elim (dec_lt i n) [
    | yes below ↦ ground (arith, count-update p n f i a below)
    | no last ↦ ground (arith, count-update_above p n f i a)
  ]

  -- Where the count is zero, no value passes.
  pub count-eq-zero :
      (p : A → Bool) (n : ℕ) (f : ℕ → A) (i : ℕ) → count p n f ≡ 0 → i < n → p (f i) ≡ false
  unfolding count
  count-eq-zero p zero f i z h = absurd (omega arith)
  count-eq-zero p (suc n) f i z h = elim (dec_lt i n) [
    | yes below ↦ count-eq-zero p n f i (ground arith) below
    | no last ↦ let here : i ≡ n = omega arith in rw here (ground arith)
  ]

  pub count_none : (p : A → Bool) (n : ℕ) (a : A) → p a ≡ false → count p n (λ i. a) ≡ 0
  unfolding count
  count_none p zero a h = refl
  count_none p (suc n) a h = ground (arith, count_none p n a h)

pub same_index-cases :
    (i j : ℕ) → ((same_index i j ≡ true) × (i ≡ j)) ⊎ ((same_index i j ≡ false) × (i ≢ j))
same_index-cases i j = ground arith

pub update_self : {A : Type 0} (f : ℕ → A) (i : ℕ) (a : A) → update f i a i ≡ a
update_self f i a = elim (same_index-cases i i) [
  | inl (same, _) ↦ rw same refl
  | inr (_, ne) ↦ absurd (ne refl)
]

pub update_other : {A : Type 0} (f : ℕ → A) (i : ℕ) (a : A) (j : ℕ) → i ≢ j → update f i a j ≡ f j
update_other f i a j ne = elim (same_index-cases i j) [
  | inl (_, same) ↦ absurd (ne same)
  | inr (other, _) ↦ rw other refl
]

-- What holds of a value and its update at one index holds at each: of two families updated together.
pub update_both {ℓ} :
    {A B : Type 0} (P : ℕ → A → B → Type ℓ) (f : ℕ → A) (g : ℕ → B) (i : ℕ) (a : A) (b : B)
    → P i a b
    → ((j : ℕ) → i ≢ j → P j (f j) (g j))
    → (j : ℕ) → P j (update f i a j) (update g i b j)
update_both P f g i a b here there j = elim (same_index-cases i j) [
  | inl (same, e) ↦ rw same (rw e at here)
  | inr (other, ne) ↦ rw other (there j ne)
]

pub update_elim {ℓ} :
    {A : Type 0} (P : ℕ → A → Type ℓ) (f : ℕ → A) (i : ℕ) (a : A)
    → P i a
    → ((j : ℕ) → i ≢ j → P j (f j))
    → (j : ℕ) → P j (update f i a j)
update_elim P f i a here there j = elim (same_index-cases i j) [
  | inl (same, e) ↦ rw same (rw e at here)
  | inr (other, ne) ↦ rw other (there j ne)
]

module _ {A : Type 0} where
  -- The weights of the first `n` values together.
  pub total : (A → ℕ) → ℕ → (ℕ → A) → ℕ
  total w zero f = 0
  total w (suc n) f = total w n f + w (f n)

  total-update_above :
      (w : A → ℕ) (n : ℕ) (f : ℕ → A) (i : ℕ) (a : A)
      → n ≤ i
      → total w n (update f i a) ≡ total w n f
  unfolding total
  total-update_above w zero f i a h = refl
  total-update_above w (suc n) f i a h = ground (arith, total-update_above w n f i a)

  pub total-update :
      (w : A → ℕ) (n : ℕ) (f : ℕ → A) (i : ℕ) (a : A)
      → i < n
      → total w n (update f i a) + w (f i) ≡ total w n f + w a
  unfolding total
  total-update w zero f i a h = absurd (omega arith)
  total-update w (suc n) f i a h = elim (dec_lt i n) [
    | yes below ↦ ground (arith, total-update w n f i a below)
    | no last ↦
        let here : i ≡ n = omega arith in rw here (ground (arith, total-update_above w n f n a))
  ]

  pub total_same : (w : A → ℕ) (n : ℕ) (a : A) → total w n (λ i. a) ≡ w a * n
  unfolding total
  total_same w zero a = omega arith
  total_same w (suc n) a = ground (arith, total_same w n a)

  -- Where the total is zero, so is each weight.
  pub total-eq-zero :
      (w : A → ℕ) (n : ℕ) (f : ℕ → A) (i : ℕ) → total w n f ≡ 0 → i < n → w (f i) ≡ 0
  unfolding total
  total-eq-zero w zero f i z h = absurd (omega arith)
  total-eq-zero w (suc n) f i z h = elim (dec_lt i n) [
    | yes below ↦ total-eq-zero w n f i (omega arith) below
    | no last ↦ let here : i ≡ n = omega arith in rw here (omega arith)
  ]

  -- Where the total is not zero, some weight is not.
  pub total_find :
      (w : A → ℕ) (n : ℕ) (f : ℕ → A) → total w n f ≢ 0 → (i : ℕ) × (i < n) × (w (f i) ≢ 0)
  unfolding total
  total_find w zero f h = absurd (h refl)
  total_find w (suc n) f h = elim (same_index-cases (total w n f) 0) [
    | inl (_, none_below) ↦ (n, omega arith, λ e. h (omega arith))
    | inr (_, some_below) ↦
        let (i, below, weighs) = total_find w n f some_below in (i, omega arith, weighs)
  ]

  -- Where the count is not zero, some value passes.
  pub count_find :
      (p : A → Bool) (n : ℕ) (f : ℕ → A) → count p n f ≢ 0 → (i : ℕ) × (i < n) × (p (f i) ≡ true)
  unfolding count
  count_find p zero f h = absurd (h refl)
  count_find p (suc n) f h = elim (same_index-cases (count p n f) 0) [
    | inl (_, none_below) ↦ (n, omega arith, ground arith)
    | inr (_, some_below) ↦
        let (i, below, passes) = count_find p n f some_below in (i, omega arith, passes)
  ]

module _ {A : Type 0} where
  pub count_none_below :
      (p : A → Bool) (n : ℕ) (f : ℕ → A) → ((i : ℕ) → i < n → p (f i) ≡ false) → count p n f ≡ 0
  unfolding count
  count_none_below p zero f h = refl
  count_none_below p (suc n) f h =
      let last = h n (omega arith) in
      let below = count_none_below p n f (λ i b. h i (omega arith)) in ground arith

  pub tabulate-eq :
      (l : List A) (f : ℕ → A)
      → ((i : ℕ) → i < length l → get_elem? l i ≡ some (f i))
      → tabulate (length l) f ≡ l
  tabulate-eq [] f h = refl
  tabulate-eq (x ∷ l) f h =
      let first : some x ≡ some (f 0) = h 0 (omega arith) in
      let same : f 0 ≡ x = cc in
      let rest = tabulate-eq l (λ i. f (suc i)) (λ i b. h (suc i) (omega arith)) in rw (same, rest)

  pub get_elem?-some : (l : List A) (i : ℕ) → i < length l → (a : A) × (get_elem? l i ≡ some a)
  get_elem?-some [] i below = absurd (omega arith)
  get_elem?-some (x ∷ l) zero below = (x, refl)
  get_elem?-some (x ∷ l) (suc i) below = get_elem?-some l i (omega arith)

-- A bound of the first values.
pub bound : (n : ℕ) (f : ℕ → ℕ) → (b : ℕ) × ((i : ℕ) → i < n → f i < b)
bound zero f = (0, λ i h. absurd (omega arith))
bound (suc n) f =
    let (b, below) = bound n f in
    (
      b + suc (f n),
      λ i h. elim (dec_lt i n) [
        | yes earlier ↦ let under = below i earlier in omega arith
        | no last ↦ let same : i ≡ n = omega arith in rw same (omega arith)
      ],
    )

pub get_elem?-below :
    {A : Type 0} (l : List A) (i : ℕ) {a : A} → get_elem? l i ≡ some a → i < length l
get_elem?-below [] i e = cc
get_elem?-below (x ∷ l) zero e = omega arith
get_elem?-below (x ∷ l) (suc i) e = let below = get_elem?-below l i e in omega arith
