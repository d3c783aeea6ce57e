-- ===== src/Core/Engine/Reordered.antt =====
-- core/engine.go: the checks of a probe, where the registrations are made in another order.
use mathlib.Core.List.{filter_map, Permᴰ}
use mathlib.Core.List.Permᴰ as Perms
use mathlib.Core.Path.{subst, subst₂}
use go_health.Prelude.{
  All-map, All-perm, ◌≡◌, ◌≢◌, refl, sym, ap, ◌∙◌, inl, inr, List, [], ◌∷◌, Option, none, some, map,
  All, Bool-cases, if◌then◌else◌,
}
use go_health.Core.Check.{Check}
use go_health.Core.Engine.Cascade.{chosen-All}
use go_health.Core.Engine.History.{Scope, Probe, covers, chosen}

-- No name stands twice.
abbrev pub IsDistinct : List Check → Type 0
IsDistinct [] = Unit
IsDistinct (c ∷ checks) = All (λ d. c.name ≢ d.name) checks × IsDistinct checks

names_differ : {a a' b b' : Check} → a ≡ a' → b ≡ b' → a.name ≢ b.name → a'.name ≢ b'.name
names_differ e f ne h = ne (ap (λ c. c.name) e ∙ h ∙ sym (ap (λ c. c.name) f))

pub IsDistinct-perm :
    {checks checks' : List Check} → Permᴰ checks checks' → IsDistinct checks → IsDistinct checks'
IsDistinct-perm Permᴰ.nil h = tt
IsDistinct-perm (Permᴰ.cons {l₂} e d) (others, h) =
    subst (λ c. IsDistinct (c ∷ l₂)) e (All-perm _ (Perms.symm d) others, IsDistinct-perm d h)
IsDistinct-perm (Permᴰ.swap {l} e f) ((ne, others), (others', h)) =
    subst₂ (λ c d. IsDistinct (c ∷ d ∷ l)) f e (((λ p. ne (sym p)), others'), (others, h))
IsDistinct-perm (Permᴰ.trans d d') h = IsDistinct-perm d' (IsDistinct-perm d h)

module _ (p : Probe) where
  picked : Scope × Check → Option Check
  picked r = if covers r.0 p then some r.1 else none

  chosen-filter_map :
      (history : List (Scope × Check)) → chosen p history ≡ filter_map picked history
  unfolding picked filter_map
  chosen-filter_map [] = refl
  chosen-filter_map ((scope, c) ∷ history) = elim (Bool-cases (covers scope p)) [
    | inl on ↦ rw (on, chosen-filter_map history) refl
    | inr off ↦ rw (off, chosen-filter_map history) refl
  ]

  pub chosen-perm :
      {history history' : List (Scope × Check)}
      → Permᴰ history history'
      → Permᴰ (chosen p history) (chosen p history')
  chosen-perm {history} {history'} d =
      subst₂ Permᴰ (sym (chosen-filter_map history)) (sym (chosen-filter_map history'))
        (Perms.filter_map picked d)

  pub chosen-IsDistinct :
      (history : List (Scope × Check))
      → IsDistinct (map (λ r. r.1) history)
      → IsDistinct (chosen p history)
  chosen-IsDistinct [] h = tt
  chosen-IsDistinct ((scope, c) ∷ history) (others, h) = elim (Bool-cases (covers scope p)) [
    | inl on ↦
        rw on (chosen-All _ p history (All-map _ _ history others), chosen-IsDistinct history h)
    | inr off ↦ rw off (chosen-IsDistinct history h)
  ]
