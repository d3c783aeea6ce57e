-- ===== src/Go/Exec/Prompt.antt =====
-- Calls that are over soon after a reading, and calls that stop once their context is done.
use go_health.Prelude.{
  ℕ, suc, max, ◌+◌, ◌≤◌, ◌<◌, ◌≡◌, refl, true, List, [], ◌∷◌, All, length, arith,
}
use go_health.Go.Exec.{Exec, returned, pure, fork_join, ◌>>=◌}
use go_health.Go.Exec.Join.{shift}
use go_health.Go.Context.{Context, is_done}

-- Whenever it is started, the computation returns a value with `P`, no later than `grace` after the
-- reading `d`, or after its start.
abbrev pub Ends {ℓ} : {A : Type ℓ} → ℕ → ℕ → (A → Type 0) → Exec A → Type ℓ
Ends {A} d grace P m =
    (s : ℕ) → (a : A) × (v : ℕ) × (m s ≡ returned a v) × (v ≤ max s d + grace) × P a

-- A call that returns once its context is done: if that is so at the reading `d`, the call returns
-- no later than `grace` after it, or after its start.
abbrev pub Honours {ℓ} : {A : Type ℓ} → (ℕ → A → Type 0) → ℕ → (Context → Exec A) → Type ℓ
Honours P grace call =
    (ctx : Context) (d : ℕ) → is_done ctx d ≡ true → Ends d grace (P d) (call ctx)

-- No condition on the value.
abbrev pub Anything {ℓ} : {A : Type ℓ} → A → Type 0
Anything a = Unit

module _ {A : Type 0} where
  pub Ends-pure : (d g : ℕ) (P : A → Type 0) (a : A) → P a → Ends d g P (pure a)
  Ends-pure d g P a h s = (a, s, refl, omega arith, h)

  pub Ends-mono :
      (d : ℕ) {g h : ℕ} (P : A → Type 0) (m : Exec A) → g ≤ h → Ends d g P m → Ends d h P m
  Ends-mono d P m le ends s =
      let (a, v, ran, early, holds) = ends s in (a, v, ran, omega arith, holds)

  pub Ends->>= :
      {B : Type 0} (d g h : ℕ) (P : A → Type 0) (Q : B → Type 0) (m : Exec A) (f : A → Exec B)
      → Ends d g P m
      → ((a : A) → P a → Ends d h Q (f a))
      → Ends d (g + h) Q (m >>= f)
  Ends->>= d g h P Q m f first rest s =
      let (a, v, ran, early, holds) = first s in
      let (b, w, then_ran, later, gives) = rest a holds v in
      (b, w, rw ran then_ran, omega arith, gives)

  -- What is returned may be made of the value.
  pub Ends-value :
      {B : Type 0} (d g : ℕ) (P : A → Type 0) (Q : B → Type 0) (m : Exec A) (f : A → B)
      → Ends d g P m
      → ((a : A) → P a → Q (f a))
      → Ends d g Q (m >>= λ a. pure (f a))
  Ends-value d g P Q m f ends gives s =
      let (a, v, ran, early, holds) = ends s in (f a, v, rw ran refl, early, gives a holds)

  -- Goroutines that start soon and end soon.
  pub Ends-fork_join :
      (d g h : ℕ) (P : A → Type 0) (delay : ℕ → ℕ) (ms : List (Exec A))
      → ((i : ℕ) → i < length ms → delay i ≤ g)
      → All (Ends d h P) ms
      → Ends d (g + h) (All P) (fork_join delay ms)
  unfolding fork_join
  Ends-fork_join d g h P delay [] starts ends s = ([], s, refl, omega arith, tt)
  Ends-fork_join d g h P delay (m ∷ ms) starts (here, later) s =
      let soon = starts 0 (omega arith) in
      let (a, v, ran, early, holds) = here (s + delay 0) in
      let (slots, w, joined, in_time, all) =
        Ends-fork_join d g h P (shift delay) ms (λ i below. starts (suc i) (omega arith)) later s in
      (a ∷ slots, max v w, rw (ran, joined) refl, omega arith, (holds, all))
