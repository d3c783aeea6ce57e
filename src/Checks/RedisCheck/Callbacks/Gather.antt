-- ===== src/Checks/RedisCheck/Callbacks/Gather.antt =====
-- The pings that were stored, in the order of the nodes.
use mathlib.Core.List.{Permᴰ, append-nil, append_assoc, map-append}
use mathlib.Core.List.Permᴰ as Perms
use go_health.Prelude.{
  ℕ, zero, suc, ◌≤◌, ◌<◌, ◌≡◌, refl, sym, ap, ◌∙◌, inl, inr, List, [], ◌∷◌, ◌++◌, All, All-append,
  arith, map, some, length, get_elem?,
}
use go_health.Prelude.Families.{update, same_index-cases}
use go_health.Checks.RedisCheck.{NodePinger}
use go_health.Checks.RedisCheck.Callbacks.Defs.{
  Pinged, Phase, waiting, pinging, answered, locked, loaded, stored, unlocked,
}

-- What a callback has added to the slice.
abbrev pub added : Phase → List Pinged
added (stored p) = p ∷ []
added (unlocked p) = p ∷ []
added _ = []

pub gather : ℕ → (ℕ → Phase) → List Pinged
gather zero phase = []
gather (suc n) phase = added (phase n) ++ gather n phase

gather-update_above :
    (n : ℕ) (phase : ℕ → Phase) (i : ℕ) (p : Phase)
    → n ≤ i
    → gather n (update phase i p) ≡ gather n phase
unfolding gather
gather-update_above zero phase i p h = refl
gather-update_above (suc n) phase i p h = elim (same_index-cases i n) [
  | inl (_, same) ↦ absurd (omega arith)
  | inr (other, _) ↦ rw (other, gather-update_above n phase i p (omega arith)) refl
]

-- A move of one callback that adds nothing.
pub gather-update_same :
    (n : ℕ) (phase : ℕ → Phase) (i : ℕ) (p : Phase)
    → added p ≡ added (phase i)
    → gather n (update phase i p) ≡ gather n phase
unfolding gather
gather-update_same zero phase i p h = refl
gather-update_same (suc n) phase i p h = elim (same_index-cases i n) [
  | inl (same, e) ↦
      rw (same, gather-update_same n phase i p h)
        (ap (λ l. l ++ gather n phase) (h ∙ ap (λ j. added (phase j)) e))
  | inr (other, _) ↦ rw (other, gather-update_same n phase i p h) refl
]

-- A move of one callback that adds its ping.
pub gather-update_stored :
    (n : ℕ) (phase : ℕ → Phase) (i : ℕ) (p : Pinged)
    → i < n
    → added (phase i) ≡ []
    → Permᴰ (p ∷ gather n phase) (gather n (update phase i (stored p)))
unfolding gather
gather-update_stored zero phase i p h e = absurd (omega arith)
gather-update_stored (suc n) phase i p h e = elim (same_index-cases i n) [
  | inl (same, here) ↦
      rw (same, gather-update_above n phase i (stored p) (omega arith))
        (let none_yet : added (phase n) ≡ [] = sym (ap (λ j. added (phase j)) here) ∙ e in
          rw none_yet (Perms.refl (p ∷ gather n phase)))
  | inr (other, ne) ↦ rw other (
      Perms.trans (Perms.symm (Perms.middle p (added (phase n)) (gather n phase)))
        (Perms.append_left (added (phase n)) (gather-update_stored n phase i p (omega arith) e)))
]

pub gather-waiting : (n : ℕ) → gather n (λ i. waiting) ≡ []
unfolding gather
gather-waiting zero = refl
gather-waiting (suc n) = gather-waiting n

pub gather-All :
    (P : Pinged → Type 0) (n : ℕ) (phase : ℕ → Phase)
    → ((i : ℕ) → i < n → All P (added (phase i)))
    → All P (gather n phase)
unfolding gather
gather-All P zero phase h = tt
gather-All P (suc n) phase h =
    All-append P (added (phase n)) (gather n phase) (h n (omega arith))
      (gather-All P n phase (λ i below. h i (omega arith)))

gather-first :
    (n : ℕ) (phase : ℕ → Phase)
    → gather (suc n) phase ≡ gather n (λ i. phase (suc i)) ++ added (phase zero)
unfolding gather
gather-first zero phase = append-nil (added (phase zero))
gather-first (suc n) phase =
    let next_phase : ℕ → Phase = λ i. phase (suc i) in
    ap (λ l. added (phase (suc n)) ++ l) (gather-first n phase)
    ∙ sym (append_assoc (added (phase (suc n))) (gather n next_phase) (added (phase zero)))

-- The callback of the node `n` is through.
abbrev pub IsThrough : NodePinger → Phase → Type 0
IsThrough n (unlocked p) = p.node ≡ n
IsThrough n _ = ⊥

IsThrough-added :
    (n : NodePinger) (p : Phase) → IsThrough n p → map (λ x. x.node) (added p) ≡ n ∷ []
IsThrough-added n (unlocked p) h = ap (λ x. x ∷ []) h
IsThrough-added n waiting h = absurd h
IsThrough-added n (pinging _) h = absurd h
IsThrough-added n (answered _) h = absurd h
IsThrough-added n (locked _) h = absurd h
IsThrough-added n (loaded _ _) h = absurd h
IsThrough-added n (stored _) h = absurd h

-- Once all callbacks are through, each node has its ping.
pub gather-nodes :
    (nodes : List NodePinger) (phase : ℕ → Phase)
    → ((i : ℕ) (n : NodePinger) → get_elem? nodes i ≡ some n → IsThrough n (phase i))
    → Permᴰ (map (λ x. x.node) (gather (length nodes) phase)) nodes
unfolding gather
gather-nodes [] phase h = Permᴰ.nil
gather-nodes (n ∷ nodes) phase h =
    let later : ℕ → Phase = λ i. phase (suc i) in
    let node : Pinged → NodePinger = λ x. x.node in
    rw
      (
        gather-first (length nodes) phase,
        map-append node (gather (length nodes) later) (added (phase zero)),
        IsThrough-added n (phase zero) (h zero n refl),
      )
      (Perms.trans (Perms.middle n (map node (gather (length nodes) later)) []) (
        Permᴰ.cons refl (
          rw (append-nil (map node (gather (length nodes) later)))
            (gather-nodes nodes later (λ i m has. h (suc i) m has)))))
