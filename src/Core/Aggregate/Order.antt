-- ===== src/Core/Aggregate/Order.antt =====
-- `aggregate` ranges over a Go map: the order of the visit does not matter.
use mathlib.Core.Logic.{∥∥₁_elim}
use mathlib.Core.List.{Perm, Permᴰ}
use mathlib.Core.List.Permᴰ as Perms
use go_health.Prelude.{◌≡◌, sym, ◌∙◌, inl, inr, String, String-set, List}
use go_health.Core.Status.{Status}
use go_health.Core.Check.{ComponentStatus}
use go_health.Core.Aggregate.{aggregate}
use go_health.Core.Aggregate.Strict.{Has, Reports, aggregate_cases, aggregate_strict}

Has-cast : (s : Status) {e f : String × List ComponentStatus} → e ≡ f → Has s e.1 → Has s f.1
Has-cast s p h = rw p at h

Reports-perm :
    (s : Status) {checks visited : List (String × List ComponentStatus)}
    → Permᴰ checks visited
    → Reports s checks
    → Reports s visited
Reports-perm s Permᴰ.nil h = h
Reports-perm s (Permᴰ.cons e d) (inl h) = inl (Has-cast s e h)
Reports-perm s (Permᴰ.cons e d) (inr h) = inr (Reports-perm s d h)
Reports-perm s (Permᴰ.swap e f) (inl h) = inr (inl (Has-cast s e h))
Reports-perm s (Permᴰ.swap e f) (inr (inl h)) = inl (Has-cast s f h)
Reports-perm s (Permᴰ.swap e f) (inr (inr h)) = inr (inr h)
Reports-perm s (Permᴰ.trans d d') h = Reports-perm s d' (Reports-perm s d h)

pub aggregate-permᴰ :
    (checks visited : List (String × List ComponentStatus))
    → Permᴰ checks visited
    → aggregate checks ≡ aggregate visited
aggregate-permᴰ checks visited d =
    let (fails, warns, passes) = aggregate_strict visited in
    let back = λ (s : Status). Reports-perm s (Perms.symm d) in
    elim (aggregate_cases checks) [
      | inl (e, f) ↦ e ∙ sym (fails.1 (Reports-perm _ d f))
      | inr (inl (e, w, nf)) ↦ e ∙ sym (warns.1 (Reports-perm _ d w, λ h. nf (back _ h)))
      | inr (inr (e, nw, nf)) ↦ e ∙ sym (passes.1 (λ h. nw (back _ h), λ h. nf (back _ h)))
    ]

-- Whatever the order in which the map is visited, the status is the same.
pub aggregate-perm :
    (checks visited : List (String × List ComponentStatus))
    → Perm checks visited
    → aggregate checks ≡ aggregate visited
aggregate-perm checks visited p = ∥∥₁_elim p (String-set _ _) (aggregate-permᴰ checks visited)
