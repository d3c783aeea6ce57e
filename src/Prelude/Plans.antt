-- ===== src/Prelude/Plans.antt =====
-- A schedule of starts: who has started, once those with a delay below `k` have, and of those with the
-- delay `k` the first `j`.
use Prim.Native.Nat.{ℕ, suc, ◌+◌, ◌<◌}
use mathlib.Core.Path.{◌≡◌}
use mathlib.Core.Logic.{◌≢◌, ◌⊎◌, inl, inr}
use mathlib.Core.Bool.{◌&&◌, ◌||◌}
use native.Mathlib.Omega.{arith}
use go_health.Prelude.Tests.{ltb, leb, if◌then◌else◌}
use go_health.Prelude.Families.{same_index-cases}

module _ {A : Type 0} (n t : ℕ) (delay : ℕ → ℕ) (idle : A) (started : ℕ → A) where
  abbrev pub planned : ℕ → ℕ → ℕ → A
  planned k j i =
      if ltb (delay i) k || (leb (delay i) k && ltb i j) then started (t + delay i) else idle

  pub planned-next : (k j i : ℕ) → (j ≢ i) ⊎ (delay j ≢ k) → planned k j i ≡ planned k (suc j) i
  planned-next k j i (inl other) = ground arith
  planned-next k j i (inr other) = elim (same_index-cases j i) [
    | inl (_, same) ↦ let far : delay i ≢ k = rw same at other in ground arith
    | inr (_, ne) ↦ ground arith
  ]

  pub planned-idle : (k j : ℕ) → delay j ≡ k → planned k j j ≡ idle
  planned-idle k j e = ground arith

  pub planned-started : (k j : ℕ) → delay j ≡ k → started (t + k) ≡ planned k (suc j) j
  planned-started k j e = ground arith

  pub planned_none : (i : ℕ) → idle ≡ planned 0 0 i
  planned_none i = ground arith

  pub planned_all : (k i : ℕ) → i < n → planned k n i ≡ planned (suc k) 0 i
  planned_all k i below = ground arith

  -- Past every delay, all have started.
  pub planned_over : (b i : ℕ) → delay i < b → planned b 0 i ≡ started (t + delay i)
  planned_over b i due = ground arith
