-- ===== src/Checks/RedisCheck/Verdict.antt =====
-- What the Redis checks report.
use mathlib.Core.Path.{subst}
use go_health.Prelude.{
  ℕ, ◌+◌, ◌≡◌, refl, sym, ap, ◌∙◌, ◌↔◌, ◌⊎◌, inl, inr, String, List, [], ◌∷◌, Option, none, some,
  map, Any,
}
use go_health.Go.Exec.{returned, pure, continue, continue-eq-returned, fork_join}
use go_health.Go.Exec.Join.{shift, Joined, fork_join-Joined}
use go_health.Go.Context.{Context}
use go_health.Core.Status.{status_fail, pass-ne-fail}
use go_health.Core.Check.{Result, ComponentStatus}
use go_health.Core.Observe.{check_context, run_one}
use go_health.Core.Observe.Single.{Judged, run_one_single}
use go_health.Core.Observe.Inverse.{run_one-inv, TellAll-Any, TellAll-nil}
use go_health.Core.Aggregate.Strict.{Has}
use go_health.Checks.RedisCheck.{
  NodePinger, Visit, ShardIterator, pinged, ping_node, with_error, after_visit, new_with_pinger,
  new_with_iterator,
}

-- When the ping of a single node returns, the check has one entry, for the address of the node: it
-- passes if there was no error, and else fails with the text of the error.
pub new_with_pinger_reports :
    (p : NodePinger) (ctx : Context) (t u : ℕ) (err : Option String)
    → p.ping (check_context ctx (new_with_pinger p) t) t ≡ returned err u
    → (cs : ComponentStatus) × (run_one ctx (new_with_pinger p) t ≡ returned (cs ∷ []) u)
      × Judged err cs
      × (cs.component_id ≡ p.addr)
unfolding new_with_pinger
new_with_pinger_reports p ctx t u none e =
    run_one_single ctx (new_with_pinger p) t u _ _ none refl
      (ap (λ o. continue (continue o (λ r. pure (pinged p.addr r))) (λ r. pure (r ∷ []))) e) refl
new_with_pinger_reports p ctx t u (some err) e =
    run_one_single ctx (new_with_pinger p) t u _ _ (some err) refl
      (ap (λ o. continue (continue o (λ r. pure (pinged p.addr r))) (λ r. pure (r ∷ []))) e)
      (refl, refl)

module _ (ctx : Context) (u : ℕ) where
  -- The ping of some node, started after the visit at `u` and its delay, returned an error.
  abbrev pub Unreachable : (ℕ → ℕ) → List NodePinger → Type 0
  Unreachable delay [] = ⊥
  Unreachable delay (n ∷ nodes) =
      ((err : String) × (w : ℕ) × (n.ping ctx (u + delay 0) ≡ returned (some err) w))
      ⊎ Unreachable (shift delay) nodes

  pinged-fail :
      (n : NodePinger) (t v : ℕ) (err : Option String)
      → n.ping ctx t ≡ returned err v
      → ((pinged n.addr err).status ≡ status_fail)
        ↔ ((e : String) × (w : ℕ) × (n.ping ctx t ≡ returned (some e) w))
  pinged-fail n t v none ran = (λ h. absurd (pass-ne-fail h), λ h. let (e, w, other) = h in cc)
  pinged-fail n t v (some err) ran = (λ h. (err, v, ran), λ h. refl)

  ping_node-fail :
      (n : NodePinger) (t w : ℕ) (r : Result)
      → ping_node ctx n t ≡ returned r w
      → (r.status ≡ status_fail)
        ↔ ((err : String) × (v : ℕ) × (n.ping ctx t ≡ returned (some err) v))
  unfolding ping_node
  ping_node-fail n t w r h =
      let (err, v, ran, last) =
        continue-eq-returned (n.ping ctx t) (λ e. pure (pinged n.addr e)) h in
      let same : pinged n.addr err ≡ r = cc in
      let (to, from) = pinged-fail n t v err ran in
      (
        λ fails. to (ap (λ (x : Result). x.status) same ∙ fails),
        λ failed. sym (ap (λ (x : Result). x.status) same) ∙ from failed,
      )

  results-Unreachable :
      (delay : ℕ → ℕ) (v : ℕ) (nodes : List NodePinger) (out : List Result)
      → Joined delay u v (map (ping_node ctx) nodes) out
      → Any (λ r. r.status ≡ status_fail) out ↔ Unreachable delay nodes
  results-Unreachable delay v [] [] j = (λ h. h, λ h. h)
  results-Unreachable delay v (n ∷ nodes) (r ∷ out) ((w, ran, _), j) =
      let (to, from) = results-Unreachable (shift delay) v nodes out j in
      let (here, back) = ping_node-fail n (u + delay 0) w r ran in
      (
        elim [ inl h ↦ inl (here h) | inr h ↦ inr (to h) ],
        elim [ inl h ↦ inl (back h) | inr h ↦ inr (from h) ],
      )
  results-Unreachable delay v [] (r ∷ out) j = absurd j
  results-Unreachable delay v (n ∷ nodes) [] j = absurd j

with_error-fail :
    (error : Option String) (out : List Result)
    → Any (λ r. r.status ≡ status_fail) (with_error error out)
      ↔ (Any (λ r. r.status ≡ status_fail) out ⊎ ((err : String) × (error ≡ some err) × (out ≡ [])))
unfolding with_error
with_error-fail (some err) [] = (λ h. inr (err, refl, refl), λ h. inl refl)
with_error-fail none [] = (λ h. inl h, elim [ inl h ↦ h | inr (err, e, _) ↦ cc ])
with_error-fail none (r ∷ out) = (λ h. inl h, elim [ inl h ↦ h | inr (err, e, _) ↦ cc ])
with_error-fail (some err) (r ∷ out) = (λ h. inl h, elim [ inl h ↦ h | inr (e, _, n) ↦ cc ])

with_error-nil :
    (error : Option String) (out : List Result)
    → (with_error error out ≡ []) ↔ ((out ≡ []) × (error ≡ none))
unfolding with_error
with_error-nil (some err) [] = (λ h. cc, λ h. cc (h.1))
with_error-nil none [] = (λ h. (refl, refl), λ h. refl)
with_error-nil none (r ∷ out) = (λ h. cc, λ h. h.0)
with_error-nil (some err) (r ∷ out) = (λ h. cc, λ h. h.0)

Joined-nil :
    (delay : ℕ → ℕ) (t u : ℕ) (nodes : List NodePinger) (ctx : Context) (out : List Result)
    → Joined delay t u (map (ping_node ctx) nodes) out
    → (out ≡ []) ↔ (nodes ≡ [])
Joined-nil delay t u [] ctx [] j = (λ h. refl, λ h. refl)
Joined-nil delay t u (n ∷ nodes) ctx (r ∷ out) j = (λ h. cc, λ h. cc)
Joined-nil delay t u [] ctx (r ∷ out) j = absurd j
Joined-nil delay t u (n ∷ nodes) ctx [] j = absurd j

pub after_visit-inv :
    (ctx : Context) (visit : Visit) (u v : ℕ) (results : List Result)
    → after_visit ctx visit u ≡ returned results v
    → (out : List Result) × (results ≡ with_error visit.error out)
      × Joined visit.delay u v (map (ping_node ctx) visit.nodes) out
unfolding after_visit
after_visit-inv ctx visit u v results h =
    let (out, w, ended, last) =
      continue-eq-returned (fork_join visit.delay (map (ping_node ctx) visit.nodes) u)
        (λ o. pure (with_error visit.error o)) h in
    let same : results ≡ with_error visit.error out = cc in
    let end : w ≡ v = cc in
    (out, same, fork_join-Joined visit.delay _ u v out (ended ∙ ap (returned out) end))

-- When the check of a cluster returns, it has an entry that fails exactly when the ping of some node
-- that was visited failed, or no node was visited and the visit returned an error; it has no entry at
-- all exactly when no node was visited and there was no error.
pub new_with_iterator_verdict :
    (it : ShardIterator) (ctx : Context) (t u v : ℕ) (visit : Visit) (found : List ComponentStatus)
    → it.for_each (check_context ctx (new_with_iterator it) t) t ≡ returned visit u
    → run_one ctx (new_with_iterator it) t ≡ returned found v
    → (Has status_fail found ↔ (
        Unreachable (check_context ctx (new_with_iterator it) t) u visit.delay visit.nodes
        ⊎ ((err : String) × (visit.error ≡ some err) × (visit.nodes ≡ []))))
      × ((found ≡ []) ↔ ((visit.nodes ≡ []) × (visit.error ≡ none)))
unfolding new_with_iterator
new_with_iterator_verdict it ctx t u v visit found visited h =
    let ctx' = check_context ctx (new_with_iterator it) t in
    let (results, ran, told) = run_one-inv ctx (new_with_iterator it) t v _ found refl h in
    let (out, same, joined) =
      after_visit-inv ctx' visit u v results
        (sym (ap (λ o. continue o (after_visit ctx')) visited) ∙ ran) in
    let (entry_to, entry_from) = TellAll-Any status_fail _ v results found told in
    let (nil_to, nil_from) = TellAll-nil _ v results found told in
    let (error_to, error_from) = with_error-fail visit.error out in
    let (none_to, none_from) = with_error-nil visit.error out in
    let (ping_to, ping_from) = results-Unreachable ctx' u visit.delay v visit.nodes out joined in
    let (out_to, out_from) = Joined-nil visit.delay u v visit.nodes ctx' out joined in
    let fails = λ (rs : List Result). Any (λ r. r.status ≡ status_fail) rs in
    (
      (
        λ has. elim (error_to (subst fails same (entry_to has))) [
          | inl some_ping ↦ inl (ping_to some_ping)
          | inr (err, e, n) ↦ inr (err, e, out_to n)
        ],
        elim [
          | inl pings ↦ entry_from (subst fails (sym same) (error_from (inl (ping_from pings))))
          | inr (err, e, n) ↦
              entry_from (subst fails (sym same) (error_from (inr (err, e, out_from n))))
        ],
      ),
      (
        λ empty. let (n, e) = none_to (sym same ∙ nil_to empty) in (out_to n, e),
        λ h'. nil_from (same ∙ none_from (out_from h'.0, h'.1)),
      ),
    )
