-- ===== src/Checks/Service/Plan.antt =====
-- Which of the things that a service looks after are up, as an abstract account of the service.
use go_health.Prelude.{
  ◌≡◌, inl, inr, Bool, true, false, List, [], ◌∷◌, All, Any, ◌&&◌, ◌||◌, not, if◌then◌else◌,
}
use go_health.Core.Check.{Check}
use go_health.Core.Engine.History.{Scope, Probe, covers, chosen}
use go_health.Checks.Health.{Window, Shows}
use go_health.Checks.Watched.{Watches, Watches-Shows}

-- For each registration its scope, and whether what the check looks after is up.
abbrev pub Plan : Type 0
Plan = List (Scope × Bool)

-- Whether a probe covers something that is down.
pub is_down : Probe → Plan → Bool
is_down p [] = false
is_down p ((scope, up) ∷ plan) = (covers scope p && not up) || is_down p plan

-- The history registered a check for each entry of the plan, which holds in the window.
abbrev pub Realises : Window → Plan → List (Scope × Check) → Type 0
Realises window [] [] = Unit
Realises window ((scope, up) ∷ plan) ((scope', c) ∷ history) =
    (scope ≡ scope') × Watches window up c × Realises window plan history
Realises window _ _ = ⊥

down_step :
    {window : Window} (on up rest : Bool) (c : Check) (checks : List Check)
    → Watches window up c
    → (rest ≡ true → Any (Shows window false) checks)
    → (on && not up) || rest ≡ true
    → Any (Shows window false) (if on then c ∷ checks else checks)
down_step true false rest c checks watches later h = inl (Watches-Shows watches)
down_step true true rest c checks watches later h = inr (later h)
down_step false up rest c checks watches later h = later h

up_step :
    {window : Window} (on up rest : Bool) (c : Check) (checks : List Check)
    → Watches window up c
    → (rest ≡ false → All (Shows window true) checks)
    → (on && not up) || rest ≡ false
    → All (Shows window true) (if on then c ∷ checks else checks)
up_step true false rest c checks watches later h = cc
up_step true true rest c checks watches later h = (Watches-Shows watches, later h)
up_step false up rest c checks watches later h = later h

module _ (window : Window) (p : Probe) where
  pub is_down-Any :
      (plan : Plan) (history : List (Scope × Check))
      → Realises window plan history
      → is_down p plan ≡ true
      → Any (Shows window false) (chosen p history)
  unfolding is_down
  is_down-Any [] [] r h = cc
  is_down-Any ((scope, up) ∷ plan) ((scope', c) ∷ history) (same, watches, r) h =
      down_step (covers scope' p) up (is_down p plan) c (chosen p history) watches
        (is_down-Any plan history r) (rw same at h)
  is_down-Any [] (x ∷ history) r h = absurd r
  is_down-Any (x ∷ plan) [] r h = absurd r

  pub is_down-All :
      (plan : Plan) (history : List (Scope × Check))
      → Realises window plan history
      → is_down p plan ≡ false
      → All (Shows window true) (chosen p history)
  unfolding is_down
  is_down-All [] [] r h = tt
  is_down-All ((scope, up) ∷ plan) ((scope', c) ∷ history) (same, watches, r) h =
      up_step (covers scope' p) up (is_down p plan) c (chosen p history) watches
        (is_down-All plan history r) (rw same at h)
  is_down-All [] (x ∷ history) r h = absurd r
  is_down-All (x ∷ plan) [] r h = absurd r
