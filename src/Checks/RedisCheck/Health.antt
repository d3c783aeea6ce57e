-- ===== src/Checks/RedisCheck/Health.antt =====
-- checks/redischeck/redischeck.go: what Run says of the nodes, from their answers.
use mathlib.Core.Path.{subst}
use go_health.Prelude.{
  ℕ, ◌≡◌, refl, Bool, true, false, String, Option, none, some, sym, inl, inr, ◌⊎◌, List, [], ◌∷◌,
  map, All, Any, arith,
}
use go_health.Go.Exec.Join.{fork_join-Joined}
use go_health.Go.Exec.{returned, Exec, fork_join, continue-eq-returned}
use go_health.Go.Exec.Prompt.{Anything}
use go_health.Go.Exec.Always.{
  Always, Always-value, Always->>=, Always-fork_join, Always-fork_join-Any, Since, Since-pure,
  Since->>=, Since-fork_join,
}
use go_health.Go.Context.{Context}
use go_health.Core.Status.{Status, status_pass, status_fail}
use go_health.Core.Check.{Result}
use go_health.Checks.Health.{
  Window, Live, Live-IsClosed, Answers, Whenever, IsForward, Errs, Gives, Shows,
}
use go_health.Checks.RedisCheck.{
  Visit, RedisClient, ShardVisit, ClusterClient, real_pinger, cluster_shard_iterator, pinged,
  ping_node, with_error, after_visit, new_with_pinger, new_with_iterator, new, new_cluster,
}

-- The status of the result for a node that is up, or down.
abbrev verdict_of : Bool → Status
verdict_of true = status_pass
verdict_of false = status_fail

abbrev Judged : Bool → Result → Type 0
Judged up r = r.status ≡ verdict_of up

module _ (window : Window) where
  node-Judged :
      (ctx : Context) (up : Bool) (client : RedisClient)
      → Answers window up (Errs up) client.ping_err
      → Always window.from (Live window up ctx) (Judged up) (ping_node ctx (real_pinger client))
  unfolding ping_node real_pinger
  node-Judged ctx true client pings =
      Always-value window.from (Live window true ctx) (Errs true) (Judged true)
        (client.ping_err ctx) (pinged client.options_addr) (pings ctx) (λ err h. rw h refl)
  node-Judged ctx false client pings =
      Always-value window.from (Live window false ctx) (Errs false) (Judged false)
        (client.ping_err ctx) (pinged client.options_addr) (pings ctx)
        (λ err (message, h). rw h refl)

  pub new-Shows :
      (client : RedisClient) (up : Bool)
      → Answers window up (Errs up) client.ping_err
      → Shows window up (new client)
  unfolding new new_with_pinger
  new-Shows client up pings = record {
    run = _;
    has_run = refl;
    gives = λ ctx.
        Always-value window.from (Live window up ctx) (Judged up) (Gives up)
          (ping_node ctx (real_pinger client)) (λ r. r ∷ []) (node-Judged ctx up client pings)
          (λ r. one up r);
  }
    where
      one : (up : Bool) (r : Result) → Judged up r → Gives up (r ∷ [])
      one true r h = (h, tt)
      one false r h = inl h

  -- The shards are up where each master answers the ping, and down where one does not; a visit
  -- that found none is judged by its error.
  abbrev pub ShardsUp : Bool → ShardVisit → Type 0
  ShardsUp true visit =
      All (λ c. Answers window true (Errs true) c.ping_err) visit.clients
      × (visit.clients ≡ [] → visit.error ≡ none)
  ShardsUp false visit =
      Any (λ c. Answers window false (Errs false) c.ping_err) visit.clients
      ⊎ ((visit.clients ≡ []) × Errs false visit.error)

  module _ (ctx : Context) where
    visit_of : ShardVisit → Visit
    visit_of visit = record {
      nodes = map real_pinger visit.clients;
      delay = visit.delay;
      error = visit.error;
    }

    pings : List RedisClient → List (Exec Result)
    pings clients = map (ping_node ctx) (map real_pinger clients)

    pings-All :
        (clients : List RedisClient)
        → All (λ c. Answers window true (Errs true) c.ping_err) clients
        → All (Always window.from (Live window true ctx) (Judged true)) (pings clients)
    unfolding pings
    pings-All [] h = tt
    pings-All (c ∷ clients) (here, later) = (node-Judged ctx true c here, pings-All clients later)

    pings-Any :
        (clients : List RedisClient)
        → Any (λ c. Answers window false (Errs false) c.ping_err) clients
        → Any (Always window.from (Live window false ctx) (Judged false)) (pings clients)
    unfolding pings
    pings-Any [] h = absurd h
    pings-Any (c ∷ clients) (inl here) = inl (node-Judged ctx false c here)
    pings-Any (c ∷ clients) (inr later) = inr (pings-Any clients later)

    -- A visit of some nodes leaves some results, and its error does not count.
    fork_join-nil :
        (delay : ℕ → ℕ) (clients : List RedisClient) (s v : ℕ)
        → fork_join delay (pings clients) s ≡ returned [] v
        → clients ≡ []
    unfolding pings
    fork_join-nil delay [] s v e = refl
    fork_join-nil delay (c ∷ clients) s v e =
        absurd (fork_join-Joined delay (pings (c ∷ clients)) s v [] e)

    no_nodes :
        (delay : ℕ → ℕ) (clients : List RedisClient) (s v : ℕ) (out : List Result)
        → clients ≡ []
        → fork_join delay (pings clients) s ≡ returned out v
        → out ≡ []
    unfolding pings fork_join
    no_nodes delay [] s v out empty e = cc
    no_nodes delay (c ∷ clients) s v out empty e = cc

    with_error-pass :
        (error : Option String) (out : List Result)
        → All (Judged true) out
        → (out ≡ [] → error ≡ none)
        → Gives true (with_error error out)
    unfolding with_error
    with_error-pass none out h _ = h
    with_error-pass (some err) [] h empty = let none_so : some err ≡ none = empty refl in cc
    with_error-pass (some err) (r ∷ out) h _ = h

    with_error-fail :
        (error : Option String) (out : List Result)
        → Any (Judged false) out
        → Gives false (with_error error out)
    unfolding with_error
    with_error-fail none out h = h
    with_error-fail (some err) [] h = absurd h
    with_error-fail (some err) (r ∷ out) h = h

    after_visit-Since :
        (up : Bool) (visit : Visit) → Since (Live window up ctx) (after_visit ctx visit)
    unfolding after_visit
    after_visit-Since up visit =
        Since->>= (Live window up ctx) (fork_join visit.delay (map (ping_node ctx) visit.nodes)) _
          (Since-fork_join (Live window up ctx) (Live-IsClosed window up ctx) visit.delay _)
          (λ _. Since-pure (Live window up ctx) _)

    after_visit-Gives :
        (up : Bool) (visit : ShardVisit)
        → ShardsUp up visit
        → Always window.from (Live window up ctx) (Gives up) (after_visit ctx (visit_of visit))
    unfolding after_visit visit_of pings
    after_visit-Gives true visit (answers, quiet) =
        Always-value window.from (Live window true ctx)
          (λ out. All (Judged true) out × (out ≡ [] → visit.error ≡ none)) (Gives true)
          (fork_join visit.delay (pings visit.clients)) (with_error visit.error)
          (λ s out v after e live. (
            Always-fork_join window.from (Live window true ctx) (Judged true)
                (Live-IsClosed window true ctx) visit.delay (pings visit.clients)
                (pings-All visit.clients answers) s out v after e live,
            λ empty. quiet (fork_join-nil visit.delay visit.clients s v (rw empty at e)),
          ))
          (λ out (passes, empty). with_error-pass visit.error out passes empty)
    after_visit-Gives false visit (inl answers) =
        Always-value window.from (Live window false ctx) (Any (Judged false)) (Gives false)
          (fork_join visit.delay (pings visit.clients)) (with_error visit.error)
          (Always-fork_join-Any window.from (Live window false ctx) (Judged false)
            (Live-IsClosed window false ctx) visit.delay (pings visit.clients)
            (pings-Any visit.clients answers))
          (with_error-fail visit.error)
    after_visit-Gives false visit (inr (empty, (message, fails))) =
        Always-value window.from (Live window false ctx) (λ out. out ≡ []) (Gives false)
          (fork_join visit.delay (pings visit.clients)) (with_error visit.error)
          (λ s out v _ e _. no_nodes visit.delay visit.clients s v out empty e)
          (λ out h. rw (fails, h) (inl refl))

  for_each-IsForward :
      (client : ClusterClient)
      → Whenever Anything client.for_each_shard
      → (ctx : Context) → IsForward ((cluster_shard_iterator client).for_each ctx)
  unfolding cluster_shard_iterator
  for_each-IsForward client calls ctx s visit v ran =
      let (_, w, called, last) = continue-eq-returned (client.for_each_shard ctx s) _ ran in
      let (_, forward) = calls ctx s _ w called in let end : w ≡ v = cc in omega arith

  pub new_cluster-Shows :
      (client : ClusterClient) (up : Bool)
      → Answers window up (ShardsUp up) client.for_each_shard
      → Whenever Anything client.for_each_shard
      → Shows window up (new_cluster client)
  unfolding new_cluster new_with_iterator cluster_shard_iterator visit_of
  new_cluster-Shows client up visits calls = record {
    run = _;
    has_run = refl;
    gives = λ ctx.
        let P = λ (visit : Visit). (v : ShardVisit) × ShardsUp up v × (visit ≡ visit_of ctx v) in
        Always->>= window.from (Live window up ctx) (λ _. Unit) P (Gives up)
          ((cluster_shard_iterator client).for_each ctx) (after_visit ctx)
          (λ s visit v ran. (tt, for_each-IsForward client calls ctx s visit v ran))
          (Always-value window.from (Live window up ctx) (ShardsUp up) P (client.for_each_shard ctx)
            (visit_of ctx) (visits ctx) (λ v h. (v, h, refl)))
          (λ visit _. after_visit-Since ctx up visit)
          (λ visit (v, h, same).
            subst (λ x. Always window.from (Live window up ctx) (Gives up) (after_visit ctx x))
              (sym same) (after_visit-Gives ctx up v h));
  }
