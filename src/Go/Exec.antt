-- ===== src/Go/Exec.antt =====
-- Running code against the clock. A computation reads the clock (nanoseconds since the epoch) and
-- returns a value at a reading, never returns, or panics.
pub mod Join
pub mod Prompt
pub mod Always
use go_health.Prelude.{ℕ, suc, ◌+◌, max, ◌≡◌, refl, String, List, [], ◌∷◌}

pub data Outcome {ℓ} (A : Type ℓ) : Type ℓ where
  returned : A → ℕ → Outcome A
  blocked : Outcome A
  panicked : String → Outcome A

abbrev pub Exec {ℓ} : Type ℓ → Type ℓ
Exec A = ℕ → Outcome A

abbrev pub pure {ℓ} : {A : Type ℓ} → A → Exec A
pure a t = returned a t

abbrev pub panic {ℓ} : {A : Type ℓ} → String → Exec A
panic message t = panicked message

-- time.Now()
abbrev pub now : Exec ℕ
now t = returned t t

-- A call that takes `elapsed` nanoseconds.
abbrev pub takes {ℓ} : {A : Type ℓ} → ℕ → A → Exec A
takes elapsed a t = returned a (t + elapsed)

abbrev pub continue {ℓ κ} : {A : Type ℓ} {B : Type κ} → Outcome A → (A → Exec B) → Outcome B
continue (returned a t) f = f a t
continue blocked f = blocked
continue (panicked message) f = panicked message

infixl 5 ◌>>=◌
abbrev pub ◌>>=◌ {ℓ κ} : {A : Type ℓ} {B : Type κ} → Exec A → (A → Exec B) → Exec B
◌>>=◌ m f t = continue (m t) f

module _ {ℓ} {A : Type ℓ} where
  -- Two goroutines are waited for: a panic in either ends the process, else the later one decides
  -- when the wait is over. Of two panics the model reports the first in launch order.
  abbrev pub both : Outcome A → Outcome (List A) → Outcome (List A)
  both (panicked message) _ = panicked message
  both (returned a t) (returned later u) = returned (a ∷ later) (max t u)
  both (returned _ _) (panicked message) = panicked message
  both (returned _ _) blocked = blocked
  both blocked (panicked message) = panicked message
  both blocked (returned _ _) = blocked
  both blocked blocked = blocked

  -- `go` for each computation in order, then `wg.Wait()`, from the clock reading `t`. The scheduler
  -- chooses by how much the start of each goroutine is delayed.
  unfoldable pub fork_join : (ℕ → ℕ) → List (Exec A) → Exec (List A)
  fork_join delay [] t = returned [] t
  fork_join delay (m ∷ ms) t = both (m (t + delay 0)) (fork_join (λ i. delay (suc i)) ms t)

  -- With no delay, three goroutines that take 5, 9 and 2 end at the slowest.
  slowest_decides :
      (a : A)
      → fork_join (λ i. 0) (takes 5 a ∷ takes 9 a ∷ takes 2 a ∷ []) 100
        ≡ returned (a ∷ a ∷ a ∷ []) 109
  unfolding fork_join
  slowest_decides a = refl

-- Inversion of a bind that returned.
pub continue-eq-returned {ℓ κ} :
    {A : Type ℓ} {B : Type κ} (o : Outcome A) (f : A → Exec B) {b : B} {u : ℕ}
    → continue o f ≡ returned b u
    → (a : A) × (v : ℕ) × (o ≡ returned a v) × (f a v ≡ returned b u)
continue-eq-returned (returned a v) f e = (a, v, refl, e)
continue-eq-returned blocked f e = cc
continue-eq-returned (panicked message) f e = cc
