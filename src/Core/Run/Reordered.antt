-- ===== src/Core/Run/Reordered.antt =====
-- core/engine.go: the Run methods, where the registrations were made in another order.
use mathlib.Core.List.{Permᴰ, append_assoc}
use mathlib.Core.List.Permᴰ as Perms
use mathlib.Core.Path.{subst, subst₂}
use mathlib.Core.Quot.{Quot}
use go_health.Prelude.{All-perm, ◌≡◌, refl, ap, ap₂, String, List, [], ◌∷◌, ◌++◌, map, All}
use go_health.Go.Exec.{Outcome, returned, blocked, panicked}
use go_health.Go.Context.{Context}
use go_health.Core.Status.{Status}
use go_health.Core.Check.{Check, ComponentStatus, HealthResponse}
use go_health.Core.Log.{LogEntry}
use go_health.Core.Aggregate.Statuses.{map_entries}
use go_health.Core.Observe.{observe}
use go_health.Core.Run.Distinct.{entry_of, entries_of}
use go_health.Core.Run.Erased.{erase}
use go_health.Core.Run.InTurn.{IsSteady, settled}

-- The map of a response, with no order and no stamps.
abbrev pub Entries : Type 0
Entries = Quot (λ (m n : List (String × List ComponentStatus)). Permᴰ m n)

pub record View : Type 0 where
  pub status : Status
  pub service_id : String
  pub description : String
  pub checks : Entries

-- What a client sees of a Run method.
abbrev pub viewed : Outcome (HealthResponse × List LogEntry) → Outcome (View × List LogEntry)
viewed (returned (response, logged) u) =
    returned
      (
        record {
          status = response.status;
          service_id = response.service_id;
          description = response.description;
          checks = Quot.mk (map_entries erase response.checks);
        },
        logged,
      )
      0
viewed blocked = blocked
viewed (panicked message) = panicked message

swap_fronts : {A : Type 0} (xs ys zs : List A) → Permᴰ (xs ++ (ys ++ zs)) (ys ++ (xs ++ zs))
swap_fronts xs ys zs =
    subst₂ Permᴰ (append_assoc xs ys zs) (append_assoc ys xs zs)
      (Perms.append_right zs (Perms.append_comm xs ys))

module _ (ctx : Context) where
  -- The results of a steady check are its own.
  steady_unique : (c : Check) (s s' : IsSteady ctx c) → s.0 ≡ s'.0
  steady_unique c (results, runs) (results', runs') =
      let (u, ran) = runs 0 in let (u', ran') = runs' 0 in cc

  settled_entry : (c : Check) → IsSteady ctx c → List (String × List ComponentStatus)
  settled_entry c s = entry_of c (map (observe c "") s.0)

  settled_entry_same :
      (a b : Check)
      → a ≡ b
      → (s : IsSteady ctx a) (s' : IsSteady ctx b) → settled_entry a s ≡ settled_entry b s'
  unfolding settled_entry
  settled_entry_same a b e s =
      subst (λ c. (s' : IsSteady ctx c) → settled_entry a s ≡ settled_entry c s') e
        (λ s'. ap (λ rs. entry_of a (map (observe a "") rs)) (steady_unique a s s'))

  settled_unique :
      (checks : List Check) (s s' : All (IsSteady ctx) checks)
      → settled ctx checks s ≡ settled ctx checks s'
  settled_unique [] s s' = refl
  settled_unique (c ∷ checks) (here, later) (here', later') =
      ap₂ (λ rs rest. map (observe c "") rs ∷ rest) (steady_unique c here here')
        (settled_unique checks later later')

  pub settled_perm :
      {checks checks' : List Check}
      → Permᴰ checks checks'
      → (steady : All (IsSteady ctx) checks) (steady' : All (IsSteady ctx) checks')
      → Permᴰ
          (entries_of checks (settled ctx checks steady))
          (entries_of checks' (settled ctx checks' steady'))
  unfolding settled_entry
  settled_perm Permᴰ.nil s s' = Permᴰ.nil
  settled_perm (Permᴰ.cons {a} {b} {l₁} {l₂} e d) (here, later) (here', later') =
      let first = settled_entry a here in
      subst
        (λ front.
          Permᴰ (first ++ entries_of l₁ (settled ctx l₁ later))
            (front ++ entries_of l₂ (settled ctx l₂ later')))
        (settled_entry_same a b e here here')
        (Perms.append_left first (settled_perm d later later'))
  settled_perm (Permᴰ.swap {a} {b} {a'} {b'} {l} e f) (one, (two, later)) (one', (two', later')) =
      let rest = entries_of l (settled ctx l later) in
      let first = settled_entry a one in
      let second = settled_entry b two in
      let same_rest = ap (entries_of l) (settled_unique l later later') in
      subst (λ end. Permᴰ (first ++ (second ++ rest)) end)
        (ap₂ (λ x y. x ++ y) (settled_entry_same b a' f two one')
          (ap₂ (λ x y. x ++ y) (settled_entry_same a b' e one two') same_rest))
        (swap_fronts first second rest)
  settled_perm (Permᴰ.trans d d') s s' =
      let middle = All-perm (IsSteady ctx) (Perms.symm d) s in
      Permᴰ.trans (settled_perm d s middle) (settled_perm d' middle s')
