-- ===== src/Prelude/Lists.antt =====
-- Lists measured by native numbers, and predicates on their elements.
use Prim.Native.Nat.{ℕ, zero, suc, ◌+◌}
use mathlib.Core.Path.{◌≡◌, refl, sym, ap, subst, ◌∙◌}
use mathlib.Core.Logic.{◌⊎◌, inl, inr}
use mathlib.Core.Option.{Option, none, some}
use mathlib.Core.List.{List, [], ◌∷◌, ◌++◌, map, Permᴰ}
use native.Mathlib.Omega.{arith}

module _ {ℓ} {A : Type ℓ} where
  abbrev pub length : List A → ℕ
  length [] = 0
  length (x ∷ xs) = suc (length xs)

  abbrev pub get_elem? : List A → ℕ → Option A
  get_elem? [] i = none
  get_elem? (x ∷ xs) zero = some x
  get_elem? (x ∷ xs) (suc i) = get_elem? xs i

  pub length-append : (xs ys : List A) → length (xs ++ ys) ≡ length xs + length ys
  length-append [] ys = omega arith
  length-append (x ∷ xs) ys = omega (arith, length-append xs ys)

-- `x` stands in the list.
abbrev pub Member : {A : Type 0} → A → List A → Type 0
Member x [] = ⊥
Member x (y ∷ ys) = (y ≡ x) ⊎ Member x ys

module _ {A : Type 0} (P : A → Type 0) where
  -- Every element satisfies `P`.
  abbrev pub All : List A → Type 0
  All [] = Unit
  All (x ∷ xs) = P x × All xs

  -- Some element satisfies `P`.
  abbrev pub Any : List A → Type 0
  Any [] = ⊥
  Any (x ∷ xs) = P x ⊎ Any xs

  pub Any-append_left : (xs ys : List A) → Any xs → Any (xs ++ ys)
  Any-append_left (x ∷ xs) ys (inl p) = inl p
  Any-append_left (x ∷ xs) ys (inr h) = inr (Any-append_left xs ys h)
  Any-append_left [] ys h = absurd h

  pub Any-append_right : (xs ys : List A) → Any ys → Any (xs ++ ys)
  Any-append_right [] ys h = h
  Any-append_right (x ∷ xs) ys h = inr (Any-append_right xs ys h)

  pub Any-append_cases : (xs ys : List A) → Any (xs ++ ys) → Any xs ⊎ Any ys
  Any-append_cases [] ys h = inr h
  Any-append_cases (x ∷ xs) ys (inl p) = inl (inl p)
  Any-append_cases (x ∷ xs) ys (inr h) = elim (Any-append_cases xs ys h) [
    | inl l ↦ inl (inr l)
    | inr r ↦ inr r
  ]

  pub All-append : (xs ys : List A) → All xs → All ys → All (xs ++ ys)
  All-append [] ys _ k = k
  All-append (x ∷ xs) ys (p, h) k = (p, All-append xs ys h k)

  -- What holds of every element holds of a member.
  pub All-member : (xs : List A) (x : A) → All xs → Member x xs → P x
  All-member (y ∷ ys) x (p, _) (inl same) = subst P same p
  All-member (y ∷ ys) x (_, h) (inr later) = All-member ys x h later
  All-member [] x h m = absurd m

pub length-map : {A B : Type 0} (f : A → B) (l : List A) → length (map f l) ≡ length l
length-map f [] = refl
length-map f (x ∷ l) = omega (arith, length-map f l)

-- What is weaker holds of every element too.
pub All-mono :
    {A : Type 0} {P Q : A → Type 0} (l : List A) → ((a : A) → P a → Q a) → All P l → All Q l
All-mono [] f h = tt
All-mono (a ∷ l) f (here, later) = (f a here, All-mono l f later)

-- Permuted lists stay so under a function, and have the same elements.
pub map-perm : {A B : Type 0} (f : A → B) {l m : List A} → Permᴰ l m → Permᴰ (map f l) (map f m)
map-perm f Permᴰ.nil = Permᴰ.nil
map-perm f (Permᴰ.cons e d) = Permᴰ.cons (ap f e) (map-perm f d)
map-perm f (Permᴰ.swap e e') = Permᴰ.swap (ap f e) (ap f e')
map-perm f (Permᴰ.trans d d') = Permᴰ.trans (map-perm f d) (map-perm f d')

pub All-perm : {A : Type 0} (P : A → Type 0) {l m : List A} → Permᴰ l m → All P m → All P l
All-perm P Permᴰ.nil h = tt
All-perm P (Permᴰ.cons e d) (here, later) = (subst P (sym e) here, All-perm P d later)
All-perm P (Permᴰ.swap e e') (here, (there, later)) =
    (subst P (sym e) there, (subst P (sym e') here, later))
All-perm P (Permᴰ.trans d d') h = All-perm P d (All-perm P d' h)

pub All-map :
    {A B : Type 0} (P : B → Type 0) (f : A → B) (l : List A)
    → All P (map f l)
    → All (λ a. P (f a)) l
All-map P f [] h = tt
All-map P f (a ∷ l) (here, later) = (here, All-map P f l later)

pub length-perm : {A : Type 0} {l m : List A} → Permᴰ l m → length l ≡ length m
length-perm Permᴰ.nil = refl
length-perm (Permᴰ.cons e d) = ap suc (length-perm d)
length-perm (Permᴰ.swap e e') = refl
length-perm (Permᴰ.trans d d') = length-perm d ∙ length-perm d'
