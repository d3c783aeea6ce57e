-- ===== src/Checks/Health.antt =====
-- Whether what a ready-made check looks after is up.
use go_health.Prelude.{
  ℕ, ◌≤◌, ◌≡◌, refl, ◌||◌, Bool, true, false, String, List, Option, none, some, All, Any, arith,
}
use go_health.Go.Exec.{Exec, returned}
use go_health.Go.Exec.Always.{Always, Since, IsClosed}
use go_health.Go.Context.{Context, passed, is_done}
use go_health.Core.Status.{status_pass, status_fail}
use go_health.Core.Check.{Result, Check}

-- The readings from which, and until which, things are up or down.
pub record Window : Type 0 where
  pub from : ℕ
  pub until : ℕ

-- A service that is up counts as such while the context is not done; one that is down, at any time.
abbrev pub Live : Window → Bool → Context → ℕ → Type 0
Live window true ctx v = (v ≤ window.until) × (is_done ctx v ≡ false)
Live window false ctx v = v ≤ window.until

passed-IsClosed : (limit : Option ℕ) → IsClosed (λ v. passed limit v ≡ false)
passed-IsClosed none w v le h = h
passed-IsClosed (some d) w v le h = ground arith

or-false : (b c : Bool) → (b || c) ≡ false → (b ≡ false) × (c ≡ false)
or-false true c h = cc
or-false false c h = (refl, h)

pub Live-IsClosed : (window : Window) (up : Bool) (ctx : Context) → IsClosed (Live window up ctx)
unfolding is_done
Live-IsClosed window true ctx w v le (early, h) =
    let (a, b) = or-false (passed ctx.deadline v) (passed ctx.cancelled_at v) h in
    (
      omega arith,
      rw (passed-IsClosed ctx.deadline w v le a, passed-IsClosed ctx.cancelled_at w v le b) refl,
    )
Live-IsClosed window false ctx w v le early = omega arith

-- A computation takes no negative time.
abbrev pub IsForward {ℓ} : {A : Type ℓ} → Exec A → Type ℓ
IsForward {A} m = (s : ℕ) (a : A) (v : ℕ) → m s ≡ returned a v → s ≤ v

-- If a call returns, under whatever context, it has taken no negative time, and the value has `P`.
abbrev pub Whenever {ℓ} : {A : Type ℓ} → (A → Type 0) → (Context → Exec A) → Type ℓ
Whenever {A} P call =
    (ctx : Context) (s : ℕ) (a : A) (v : ℕ) → call ctx s ≡ returned a v → P a × (s ≤ v)

module _ (window : Window) (up : Bool) where
  -- If a call is made and returns in the window, while its context is live, the value has `P`.
  abbrev pub Answers {ℓ} : {A : Type ℓ} → (A → Type 0) → (Context → Exec A) → Type ℓ
  Answers P call = (ctx : Context) → Always window.from (Live window up ctx) P (call ctx)

  pub IsForward-Since :
      {A : Type 0} (ctx : Context) (m : Exec A) → IsForward m → Since (Live window up ctx) m
  IsForward-Since ctx m forward s a v e h = Live-IsClosed window up ctx s v (forward s a v e) h

-- The error of a call to a service that is up, or down.
abbrev pub Errs : Bool → Option String → Type 0
Errs true err = err ≡ none
Errs false err = (message : String) × (err ≡ some message)

-- The results for a service that is up, or down.
abbrev pub Gives : Bool → List Result → Type 0
Gives true results = All (λ r. r.status ≡ status_pass) results
Gives false results = Any (λ r. r.status ≡ status_fail) results

-- If the Run function of the check returns in the window, while its context is live, its results
-- say whether the service is up.
pub record Shows (window : Window) (up : Bool) (c : Check) : Type 0 where
  pub run : Context → Exec (List Result)
  pub has_run : c.run ≡ some run
  pub gives : Answers window up (Gives up) run
