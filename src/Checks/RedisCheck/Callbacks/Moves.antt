-- ===== src/Checks/RedisCheck/Callbacks/Moves.antt =====
-- Each step keeps what holds of the callbacks.
use mathlib.Core.Path.{subst}
use mathlib.Core.List.{Permᴰ, map-append, append-nil}
use mathlib.Core.List.Permᴰ as Perms
use go_health.Prelude.{
  ℕ, ◌+◌, ◌≡◌, refl, sym, ap, ◌∙◌, inl, inr, true, false, List, [], ◌∷◌, ◌++◌, some, none, length,
  arith, Bool-cases,
}
use go_health.Prelude.Families.{update, update_elim, get_elem?-below}
use go_health.Go.Context.{Context}
use go_health.Core.Check.{Result}
use go_health.Checks.RedisCheck.{NodePinger}
use go_health.Checks.RedisCheck.Callbacks.Defs.{
  Pinged, Phase, waiting, pinging, answered, locked, loaded, stored, unlocked, State, Step, tick,
  call, answer, lock, load, store, unlock,
}
use go_health.Checks.RedisCheck.Callbacks.Gather.{added, gather-update_same, gather-update_stored}
use go_health.Checks.RedisCheck.Callbacks.Invariant.{holds, IsCurrent, HasPinged, Inv}

-- Outside the critical section nothing of the slice is remembered.
IsCurrent-outside : (out : List Result) (p : Phase) → holds p ≡ false → IsCurrent out p
IsCurrent-outside out waiting h = tt
IsCurrent-outside out (pinging _) h = tt
IsCurrent-outside out (answered _) h = tt
IsCurrent-outside out (locked _) h = tt
IsCurrent-outside out (loaded _ _) h = cc
IsCurrent-outside out (stored _) h = tt
IsCurrent-outside out (unlocked _) h = tt

some-injective : {i j : ℕ} → some i ≡ some j → i ≡ j
some-injective e = cc

module _ (ctx : Context) (nodes : List NodePinger) (u : ℕ) where
  HasPinged-later :
      (clock m i : ℕ) (p : Phase)
      → HasPinged ctx nodes u clock i p
      → HasPinged ctx nodes u (clock + m) i p
  HasPinged-later clock m i waiting h = tt
  HasPinged-later clock m i (pinging _) h = h
  HasPinged-later clock m i (answered p) (has, after, (v, ran, early)) =
      (has, after, (v, ran, omega arith))
  HasPinged-later clock m i (locked p) (has, after, (v, ran, early)) =
      (has, after, (v, ran, omega arith))
  HasPinged-later clock m i (loaded p _) (has, after, (v, ran, early)) =
      (has, after, (v, ran, omega arith))
  HasPinged-later clock m i (stored p) (has, after, (v, ran, early)) =
      (has, after, (v, ran, omega arith))
  HasPinged-later clock m i (unlocked p) (has, after, (v, ran, early)) =
      (has, after, (v, ran, omega arith))

  module _ (s : State) (h : Inv ctx nodes u s) where
    -- Two callbacks in the critical section are one.
    pub alone : (i j : ℕ) → holds (s.phase i) ≡ true → holds (s.phase j) ≡ true → i ≡ j
    alone i j hi hj = some-injective (sym (h.held i hi) ∙ h.held j hj)

    tick-Inv : (m : ℕ) → Inv ctx nodes u (record s { clock = s.clock + m })
    tick-Inv m = record {
      later = let past = h.later in omega arith;
      held = h.held;
      current = h.current;
      pings = λ i. HasPinged-later s.clock m i (s.phase i) (h.pings i);
      log = h.log;
      whole = h.whole;
      order = h.order;
    }

    -- A move of one callback that neither takes nor releases the mutex, and adds nothing.
    move-Inv :
        (i : ℕ) (p : Phase)
        → (holds p ≡ true → holds (s.phase i) ≡ true)
        → IsCurrent s.out p
        → HasPinged ctx nodes u s.clock i p
        → added p ≡ added (s.phase i)
        → Inv ctx nodes u (record s { phase = update s.phase i p })
    move-Inv i p keeps now pings same = record {
      later = h.later;
      held =
          update_elim (λ j q. holds q ≡ true → s.holder ≡ some j) s.phase i p
            (λ hp. h.held i (keeps hp)) (λ j ne. h.held j);
      current = update_elim (λ j q. IsCurrent s.out q) s.phase i p now (λ j ne. h.current j);
      pings =
          update_elim (λ j q. HasPinged ctx nodes u s.clock j q) s.phase i p pings
            (λ j ne. h.pings j);
      log = h.log;
      whole = h.whole;
      order = rw (gather-update_same (length nodes) s.phase i p same) h.order;
    }

    lock-Inv :
        (i : ℕ) (p : Pinged)
        → s.phase i ≡ answered p
        → s.holder ≡ none
        → Inv ctx nodes u (record s { holder = some i; phase = update s.phase i (locked p) })
    lock-Inv i p at free = record {
      later = h.later;
      held =
          update_elim (λ j q. holds q ≡ true → some i ≡ some j) s.phase i (locked p) (λ hp. refl)
            (λ j ne hj. cc (h.held j hj));
      current =
          update_elim (λ j q. IsCurrent s.out q) s.phase i (locked p) tt (λ j ne. h.current j);
      pings =
          update_elim (λ j q. HasPinged ctx nodes u s.clock j q) s.phase i (locked p)
            (subst (HasPinged ctx nodes u s.clock i) at (h.pings i)) (λ j ne. h.pings j);
      log = h.log;
      whole = h.whole;
      order =
          rw (gather-update_same (length nodes) s.phase i (locked p) (sym (ap added at))) h.order;
    }

    store-Inv :
        (i : ℕ) (p : Pinged) (seen : List Result)
        → s.phase i ≡ loaded p seen
        → Inv ctx nodes u
            (record s { out = seen ++ p.result ∷ []; phase = update s.phase i (stored p) })
    store-Inv i p seen at =
        let (has, after, (v, ran, early)) =
          subst (HasPinged ctx nodes u s.clock i) at (h.pings i) in
        let now : seen ≡ s.out = subst (IsCurrent s.out) at (h.current i) in
        let inside : holds (s.phase i) ≡ true = ap holds at in
        record {
          later = h.later;
          held =
              update_elim (λ j q. holds q ≡ true → s.holder ≡ some j) s.phase i (stored p)
                (λ hp. h.held i inside) (λ j ne. h.held j);
          current =
              update_elim (λ j q. IsCurrent (seen ++ p.result ∷ []) q) s.phase i (stored p) tt
                (λ j ne. elim (Bool-cases (holds (s.phase j))) [
                  | inl hj ↦ absurd (ne (alone i j inside hj))
                  | inr outside ↦ IsCurrent-outside (seen ++ p.result ∷ []) (s.phase j) outside
                ]);
          pings =
              update_elim (λ j q. HasPinged ctx nodes u s.clock j q) s.phase i (stored p)
                (has, after, (v, ran, early)) (λ j ne. h.pings j);
          log = h.log ++ p ∷ [];
          whole =
              ap (λ l. l ++ p.result ∷ []) (now ∙ h.whole)
              ∙ sym (map-append (λ x. x.result) h.log (p ∷ []));
          order = Perms.trans (Perms.middle p h.log []) (
              Perms.trans (Permᴰ.cons refl (rw append-nil h.order)) (
                gather-update_stored (length nodes) s.phase i p (get_elem?-below nodes i has)
                  (ap added at)));
        }

    unlock-Inv :
        (i : ℕ) (p : Pinged)
        → s.phase i ≡ stored p
        → Inv ctx nodes u (record s { holder = none; phase = update s.phase i (unlocked p) })
    unlock-Inv i p at = record {
      later = h.later;
      held =
          update_elim (λ j q. holds q ≡ true → none ≡ some j) s.phase i (unlocked p) (λ hp. cc)
            (λ j ne hj. absurd (ne (alone i j (ap holds at) hj)));
      current =
          update_elim (λ j q. IsCurrent s.out q) s.phase i (unlocked p) tt (λ j ne. h.current j);
      pings =
          update_elim (λ j q. HasPinged ctx nodes u s.clock j q) s.phase i (unlocked p)
            (subst (HasPinged ctx nodes u s.clock i) at (h.pings i)) (λ j ne. h.pings j);
      log = h.log;
      whole = h.whole;
      order =
          rw (gather-update_same (length nodes) s.phase i (unlocked p) (sym (ap added at))) h.order;
    }

  pub Step-Inv : {s s' : State} → Inv ctx nodes u s → Step ctx nodes s s' → Inv ctx nodes u s'
  Step-Inv {s} h (tick m) = tick-Inv s h m
  Step-Inv {s} h (call i below at) =
      move-Inv s h i (pinging s.clock) (λ hp. cc) tt h.later (sym (ap added at))
  Step-Inv {s} h (answer i p v at has ran early) =
      move-Inv s h i (answered p) (λ hp. cc) tt
        (has, subst (HasPinged ctx nodes u s.clock i) at (h.pings i), (v, ran, early))
        (sym (ap added at))
  Step-Inv {s} h (lock i p at free) = lock-Inv s h i p at free
  Step-Inv {s} h (load i p at) =
      move-Inv s h i (loaded p s.out) (λ hp. ap holds at) refl
        (subst (HasPinged ctx nodes u s.clock i) at (h.pings i)) (sym (ap added at))
  Step-Inv {s} h (store i p seen at) = store-Inv s h i p seen at
  Step-Inv {s} h (unlock i p at) = unlock-Inv s h i p at
