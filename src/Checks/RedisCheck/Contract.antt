-- ===== src/Checks/RedisCheck/Contract.antt =====
-- checks/redischeck/redischeck.go: the contract of Run, from that of the pings and the visit.
use go_health.Prelude.{
  length-map, ℕ, ◌+◌, ◌≤◌, ◌<◌, ◌≡◌, refl, Option, none, some, String, List, [], ◌∷◌, map, length,
  All, arith, true,
}
use go_health.Go.Exec.{fork_join}
use go_health.Go.Exec.Prompt.{Ends, Ends-value, Ends->>=, Ends-fork_join, Anything, Honours}
use go_health.Go.Context.{Context, is_done}
use go_health.Core.Check.{Result}
use go_health.Checks.Contract.{IsPlain, Promises}
use go_health.Checks.RedisCheck.{
  NodePinger, Visit, RedisClient, ShardVisit, ClusterClient, real_pinger, cluster_shard_iterator,
  pinged, ping_node, with_error, after_visit, new_with_pinger, new_with_iterator, new, new_cluster,
}

pinged-IsPlain : (addr : String) (err : Option String) → IsPlain (pinged addr err)
pinged-IsPlain addr none = refl
pinged-IsPlain addr (some err) = refl

with_error-IsPlain :
    (error : Option String) (out : List Result)
    → All IsPlain out
    → All IsPlain (with_error error out)
unfolding with_error
with_error-IsPlain none out h = h
with_error-IsPlain (some err) [] h = (refl, tt)
with_error-IsPlain (some err) (r ∷ out) h = h

-- The callbacks on the shards start soon, and the nodes answer soon.
abbrev pub Shards : ℕ → ℕ → ShardVisit → Type 0
Shards g d visit =
    ((i : ℕ) → i < length visit.clients → visit.delay i ≤ g)
    × All (λ c. Honours (λ d. Anything) g c.ping_err) visit.clients

module _ (ctx : Context) (d g : ℕ) where
  ping_node-Ends :
      (n : NodePinger) → Ends d g Anything (n.ping ctx) → Ends d g IsPlain (ping_node ctx n)
  unfolding ping_node
  ping_node-Ends n pings =
      Ends-value d g Anything IsPlain (n.ping ctx) (pinged n.addr) pings
        (λ err _. pinged-IsPlain n.addr err)

  map-ping_node-Ends :
      (nodes : List NodePinger)
      → All (λ n. Ends d g Anything (n.ping ctx)) nodes
      → All (Ends d g IsPlain) (map (ping_node ctx) nodes)
  map-ping_node-Ends [] h = tt
  map-ping_node-Ends (n ∷ nodes) (here, later) =
      (ping_node-Ends n here, map-ping_node-Ends nodes later)

  abbrev Soon : Visit → Type 0
  Soon visit =
      ((i : ℕ) → i < length visit.nodes → visit.delay i ≤ g)
      × All (λ n. Ends d g Anything (n.ping ctx)) visit.nodes

  after_visit-Ends :
      (visit : Visit) → Soon visit → Ends d (g + g) (All IsPlain) (after_visit ctx visit)
  unfolding after_visit
  after_visit-Ends visit (starts, pings) =
      let same = length-map (ping_node ctx) visit.nodes in
      Ends-value d (g + g) (All IsPlain) (All IsPlain)
        (fork_join visit.delay (map (ping_node ctx) visit.nodes)) (with_error visit.error)
        (Ends-fork_join d g g IsPlain visit.delay (map (ping_node ctx) visit.nodes)
          (λ i below. starts i (omega arith)) (map-ping_node-Ends visit.nodes pings))
        (with_error-IsPlain visit.error)

  Shards-pings :
      (clients : List RedisClient)
      → is_done ctx d ≡ true
      → All (λ c. Honours (λ d. Anything) g c.ping_err) clients
      → All (λ n. Ends d g Anything (n.ping ctx)) (map real_pinger clients)
  unfolding real_pinger
  Shards-pings [] over h = tt
  Shards-pings (c ∷ clients) over (here, later) = (here ctx d over, Shards-pings clients over later)

  Shards-Soon :
      (visit : ShardVisit)
      → is_done ctx d ≡ true
      → Shards g d visit
      → Soon (record {
        nodes = map real_pinger visit.clients;
        delay = visit.delay;
        error = visit.error;
      })
  Shards-Soon visit over (starts, pings) =
      let same = length-map real_pinger visit.clients in
      (λ i below. starts i (omega arith), Shards-pings visit.clients over pings)

pub new-Promises :
    (client : RedisClient) (g : ℕ)
    → Honours (λ d. Anything) g client.ping_err
    → Promises g (new client)
unfolding new new_with_pinger real_pinger
new-Promises client g pings = record {
  run = _;
  has_run = refl;
  honours = λ ctx d over.
      Ends-value d g IsPlain (All IsPlain) (ping_node ctx (real_pinger client)) (λ r. r ∷ [])
        (ping_node-Ends ctx d g (real_pinger client) (pings ctx d over)) (λ r plain. (plain, tt));
  limited = refl;
  soon = λ latest. omega arith;
}

pub new_cluster-Promises :
    (client : ClusterClient) (g : ℕ)
    → Honours (Shards g) g client.for_each_shard
    → Promises (g + (g + g)) (new_cluster client)
unfolding new_cluster new_with_iterator cluster_shard_iterator
new_cluster-Promises client g visits = record {
  run = _;
  has_run = refl;
  honours = λ ctx d over.
      Ends->>= d g (g + g) (Soon ctx d g) (All IsPlain)
        ((cluster_shard_iterator client).for_each ctx) (after_visit ctx)
        (Ends-value d g (Shards g d) (Soon ctx d g) (client.for_each_shard ctx) _
          (visits ctx d over) (λ visit soon. Shards-Soon ctx d g visit over soon))
        (after_visit-Ends ctx d g);
  limited = refl;
  soon = λ latest. omega arith;
}
