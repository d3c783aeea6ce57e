-- ===== src/Go/Exec/Always.antt =====
-- What holds of a value whenever a computation returns one while something still holds.
use go_health.Prelude.{ℕ, ◌+◌, ◌≤◌, ◌≡◌, sym, inl, inr, List, [], ◌∷◌, All, Any, arith}
use mathlib.Core.Path.{subst}
use go_health.Go.Exec.{Exec, returned, pure, fork_join, continue-eq-returned, ◌>>=◌}
use go_health.Go.Exec.Join.{shift, Joined, fork_join-Joined, fork_join-Last}

-- What held at a reading held before.
abbrev pub IsClosed : (ℕ → Type 0) → Type 0
IsClosed U = (w v : ℕ) → w ≤ v → U v → U w

module _ (U : ℕ → Type 0) where
  -- Where `U` holds at the end, it held at the start.
  abbrev pub Since {ℓ} : {A : Type ℓ} → Exec A → Type ℓ
  Since {A} m = (s : ℕ) (a : A) (v : ℕ) → m s ≡ returned a v → U v → U s

  pub Since-pure : {A : Type 0} (a : A) → Since (pure a)
  Since-pure a s b v e u = let same : v ≡ s = cc in subst U same u

  pub Since->>= :
      {A B : Type 0} (m : Exec A) (f : A → Exec B)
      → Since m
      → ((a : A) → Since (f a))
      → Since (m >>= f)
  Since->>= m f first rest s b v e u =
      let (a, w, ran, then_ran) = continue-eq-returned (m s) f e in
      first s a w ran (rest a w b v then_ran u)

  pub Since-fork_join :
      {A : Type 0} → IsClosed U → (delay : ℕ → ℕ) (ms : List (Exec A)) → Since (fork_join delay ms)
  Since-fork_join closed delay ms s slots v e h =
      let (after, _) = fork_join-Last delay ms s v slots e in closed s v after h

module _ (from : ℕ) (U : ℕ → Type 0) where
  -- If the computation is started from that reading on, and returns while `U` holds, the value has `P`.
  abbrev pub Always {ℓ} : {A : Type ℓ} → (A → Type 0) → Exec A → Type ℓ
  Always {A} P m = (s : ℕ) (a : A) (v : ℕ) → from ≤ s → m s ≡ returned a v → U v → P a

  pub Always-pure : {A : Type 0} (P : A → Type 0) (a : A) → P a → Always P (pure a)
  Always-pure P a h s b v after e u = let same : a ≡ b = cc in subst P same h

  -- `R` holds of the value in any case.
  pub Always->>= :
      {A B : Type 0} (R P : A → Type 0) (Q : B → Type 0) (m : Exec A) (f : A → Exec B)
      → ((s : ℕ) (a : A) (v : ℕ) → m s ≡ returned a v → R a × (s ≤ v))
      → Always P m
      → ((a : A) → R a → Since U (f a))
      → ((a : A) → P a → Always Q (f a))
      → Always Q (m >>= f)
  Always->>= R P Q m f whenever first since rest s b v after e u =
      let (a, w, ran, then_ran) = continue-eq-returned (m s) f e in
      let (r, forward) = whenever s a w ran in
      rest a (first s a w after ran (since a r w b v then_ran u)) w b v (omega arith) then_ran u

  -- What is returned may be made of the value.
  pub Always-value :
      {A B : Type 0} (P : A → Type 0) (Q : B → Type 0) (m : Exec A) (f : A → B)
      → Always P m
      → ((a : A) → P a → Q (f a))
      → Always Q (m >>= λ a. pure (f a))
  Always-value P Q m f always gives s b v after e u =
      let (a, w, ran, then_ran) = continue-eq-returned (m s) (λ a. pure (f a)) e in
      let same : f a ≡ b = cc in
      let end : w ≡ v = cc in subst Q same (gives a (always s a w after ran (subst U (sym end) u)))

  module _ {A : Type 0} (P : A → Type 0) (closed : IsClosed U) where
    Joined-All :
        (delay : ℕ → ℕ) (t u : ℕ) (ms : List (Exec A)) (slots : List A)
        → from ≤ t
        → U u
        → All (Always P) ms
        → Joined delay t u ms slots
        → All P slots
    Joined-All delay t u [] [] after h always j = tt
    Joined-All delay t u (m ∷ ms) (a ∷ slots) after h (here, later) ((v, ran, early), j) = (
      here (t + delay 0) a v (omega arith) ran (closed v u early h),
      Joined-All (shift delay) t u ms slots after h later j,
    )
    Joined-All delay t u [] (a ∷ slots) after h always j = absurd j
    Joined-All delay t u (m ∷ ms) [] after h always j = absurd j

    Joined-Any :
        (delay : ℕ → ℕ) (t u : ℕ) (ms : List (Exec A)) (slots : List A)
        → from ≤ t
        → U u
        → Any (Always P) ms
        → Joined delay t u ms slots
        → Any P slots
    Joined-Any delay t u (m ∷ ms) (a ∷ slots) after h (inl here) ((v, ran, early), j) =
        inl (here (t + delay 0) a v (omega arith) ran (closed v u early h))
    Joined-Any delay t u (m ∷ ms) (a ∷ slots) after h (inr later) (_, j) =
        inr (Joined-Any (shift delay) t u ms slots after h later j)
    Joined-Any delay t u [] slots after h always j = absurd always
    Joined-Any delay t u (m ∷ ms) [] after h always j = absurd j

    -- Of goroutines that all return a value with `P`, each slot has it.
    pub Always-fork_join :
        (delay : ℕ → ℕ) (ms : List (Exec A))
        → All (Always P) ms
        → Always (All P) (fork_join delay ms)
    Always-fork_join delay ms always s slots v after e h =
        Joined-All delay s v ms slots after h always (fork_join-Joined delay ms s v slots e)

    -- One goroutine is enough for some slot.
    pub Always-fork_join-Any :
        (delay : ℕ → ℕ) (ms : List (Exec A))
        → Any (Always P) ms
        → Always (Any P) (fork_join delay ms)
    Always-fork_join-Any delay ms always s slots v after e h =
        Joined-Any delay s v ms slots after h always (fork_join-Joined delay ms s v slots e)
