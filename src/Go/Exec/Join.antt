-- ===== src/Go/Exec/Join.antt =====
-- Waiting for goroutines: when `fork_join` returns, and what it returns.
use mathlib.Core.Path.{subst}
use native.Mathlib.Decide.{dec_lt}
use go_health.Prelude.{
  ℕ, zero, suc, ◌+◌, String, some, get_elem?, max, ◌≤◌, ◌≡◌, refl, sym, ap, ◌∙◌, ◌⊎◌, inl, inr,
  List, [], ◌∷◌, arith,
}
use go_health.Go.Exec.{Outcome, returned, blocked, panicked, Exec, both, fork_join}

abbrev pub shift : (ℕ → ℕ) → ℕ → ℕ
shift delay i = delay (suc i)

module _ {A : Type 0} where
  -- Each computation, started at `t` and its delay, returned its slot, by the reading `u`.
  abbrev pub Joined : (ℕ → ℕ) → ℕ → ℕ → List (Exec A) → List A → Type 0
  Joined delay t u [] [] = Unit
  Joined delay t u (m ∷ ms) (a ∷ slots) =
      ((v : ℕ) × (m (t + delay 0) ≡ returned a v) × (v ≤ u)) × Joined (shift delay) t u ms slots
  Joined delay t u _ _ = ⊥

  -- Some computation returned at the reading `u` itself.
  abbrev pub Last : (ℕ → ℕ) → ℕ → ℕ → List (Exec A) → Type 0
  Last delay t u [] = ⊥
  Last delay t u (m ∷ ms) = ((a : A) × (m (t + delay 0) ≡ returned a u)) ⊎ Last (shift delay) t u ms

  both-eq-returned :
      (o : Outcome A) (p : Outcome (List A)) {slots : List A} {u : ℕ}
      → both o p ≡ returned slots u
      → (a : A) × (v : ℕ) × (later : List A) × (w : ℕ) × (o ≡ returned a v)
        × (p ≡ returned later w)
        × (slots ≡ a ∷ later)
        × (u ≡ max v w)
  both-eq-returned (returned a v) (returned later w) e = (a, v, later, w, refl, refl, cc, cc)
  both-eq-returned (returned a v) blocked e = cc
  both-eq-returned (returned a v) (panicked m) e = cc
  both-eq-returned blocked (returned later w) e = cc
  both-eq-returned blocked blocked e = cc
  both-eq-returned blocked (panicked m) e = cc
  both-eq-returned (panicked m) p e = cc

  pub Joined-mono :
      (delay : ℕ → ℕ) (t : ℕ) {u u' : ℕ} (ms : List (Exec A)) (slots : List A)
      → u ≤ u'
      → Joined delay t u ms slots
      → Joined delay t u' ms slots
  Joined-mono delay t [] [] le j = tt
  Joined-mono delay t (m ∷ ms) (a ∷ slots) le ((v, ran, early), j) =
      ((v, ran, omega arith), Joined-mono (shift delay) t ms slots le j)
  Joined-mono delay t [] (a ∷ slots) le j = absurd j
  Joined-mono delay t (m ∷ ms) [] le j = absurd j

  pub fork_join-Joined :
      (delay : ℕ → ℕ) (ms : List (Exec A)) (t u : ℕ) (slots : List A)
      → fork_join delay ms t ≡ returned slots u
      → Joined delay t u ms slots
  unfolding fork_join
  fork_join-Joined delay [] t u slots e = let empty : slots ≡ [] = cc in rw empty tt
  fork_join-Joined delay (m ∷ ms) t u slots e =
      let (a, v, later, w, here, rest, same, latest) =
        both-eq-returned (m (t + delay 0)) (fork_join (shift delay) ms t) e in
      rw same (
        (v, here, omega arith),
        Joined-mono (shift delay) t ms later (omega arith)
            (fork_join-Joined (shift delay) ms t w later rest),
      )

  pub fork_join-Last :
      (delay : ℕ → ℕ) (ms : List (Exec A)) (t u : ℕ) (slots : List A)
      → fork_join delay ms t ≡ returned slots u
      → (t ≤ u) × ((u ≡ t) ⊎ Last delay t u ms)
  unfolding fork_join
  fork_join-Last delay [] t u slots e = let at_once : u ≡ t = cc in (omega arith, inl at_once)
  fork_join-Last delay (m ∷ ms) t u slots e =
      let (a, v, later, w, here, rest, same, latest) =
        both-eq-returned (m (t + delay 0)) (fork_join (shift delay) ms t) e in
      let (after, last) = fork_join-Last (shift delay) ms t w later rest in
      (
        omega arith,
        elim (dec_lt v w) [
          | yes behind ↦ elim last [
            | inl none_late ↦ inl (omega arith)
            | inr others ↦
                let u-w : u ≡ w = omega arith in
                inr (inr (subst (λ x. Last (shift delay) t x ms) (sym u-w) others))
          ]
          | no ahead ↦ let v-u : v ≡ u = omega arith in inr (inl (a, here ∙ ap (returned a) v-u))
        ],
      )

  -- Conversely, where every computation returns, so does the wait.
  pub Joined-fork_join :
      (delay : ℕ → ℕ) (ms : List (Exec A)) (t u : ℕ) (slots : List A)
      → Joined delay t u ms slots
      → (w : ℕ) × (fork_join delay ms t ≡ returned slots w) × (w ≤ max t u)
  unfolding fork_join
  Joined-fork_join delay [] t u [] j = (t, refl, omega arith)
  Joined-fork_join delay (m ∷ ms) t u (a ∷ slots) ((v, ran, early), j) =
      let (w, rest, bound) = Joined-fork_join (shift delay) ms t u slots j in
      (max v w, rw (ran, rest), omega arith)
  Joined-fork_join delay [] t u (a ∷ slots) j = absurd j
  Joined-fork_join delay (m ∷ ms) t u [] j = absurd j

  both-panicked :
      (o : Outcome A) (p : Outcome (List A)) (message : String)
      → p ≡ panicked message
      → (first : String) × (both o p ≡ panicked first)
  both-panicked (returned a v) p message e = (message, rw e)
  both-panicked blocked p message e = (message, rw e)
  both-panicked (panicked earlier) p message e = (earlier, refl)

  -- Where a computation panics, the wait ends with a panic.
  pub fork_join-panicked :
      (delay : ℕ → ℕ) (ms : List (Exec A)) (t i : ℕ) (m : Exec A) (message : String)
      → get_elem? ms i ≡ some m
      → m (t + delay i) ≡ panicked message
      → (first : String) × (fork_join delay ms t ≡ panicked first)
  unfolding fork_join
  fork_join-panicked delay [] t i m message has e = cc
  fork_join-panicked delay (n ∷ ms) t zero m message has e =
      let same : n ≡ m = cc in (message, rw (rw (← same) at e))
  fork_join-panicked delay (n ∷ ms) t (suc i) m message has e =
      let (first, rest) = fork_join-panicked (shift delay) ms t i m message has e in
      both-panicked (n (t + delay 0)) (fork_join (shift delay) ms t) first rest
