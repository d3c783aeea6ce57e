-- ===== src/Checks/RedisCheck.antt =====
-- checks/redischeck/redischeck.go. The clients of go-redis are parameters: what a ping and a visit
-- of the shards return, and when.
pub mod Contract
pub mod Health
pub mod Verdict
pub mod Callbacks
use go_health.Prelude.{ℕ, String, List, [], ◌∷◌, ◌++◌, Option, none, some, map}
use go_health.Go.Exec.{Exec, pure, fork_join, ◌>>=◌}
use go_health.Go.Duration.{ℤ, seconds}
use go_health.Go.Context.{Context}
use go_health.Core.Status.{status_pass, status_fail}
use go_health.Core.Check.{Result, zero_result, Check}

abbrev pub default_name : String
default_name = "redis:ping"

abbrev pub default_component_type : String
default_component_type = "datastore"

abbrev pub default_timeout : ℤ
default_timeout = seconds 1

pub record NodePinger : Type 0 where
  pub ping : Context → Exec (Option String)
  pub addr : String

-- A visit of the shards: the nodes on which the callback is run, in the order in which the callbacks
-- take the mutex, with the delay of the start of each, and the error that the visit returns.
pub record Visit : Type 0 where
  pub nodes : List NodePinger
  pub delay : ℕ → ℕ
  pub error : Option String

pub record ShardIterator : Type 0 where
  pub for_each : Context → Exec Visit

-- *redis.Client of go-redis: Ping(ctx).Err() and Options().Addr
pub record RedisClient : Type 0 where
  pub ping_err : Context → Exec (Option String)
  pub options_addr : String

unfoldable pub real_pinger : RedisClient → NodePinger
real_pinger c = record { ping = c.ping_err; addr = c.options_addr }

-- *redis.ClusterClient of go-redis: ForEachShard, with callbacks that return nil
pub record ShardVisit : Type 0 where
  pub clients : List RedisClient
  pub delay : ℕ → ℕ
  pub error : Option String

pub record ClusterClient : Type 0 where
  pub for_each_shard : Context → Exec ShardVisit

unfoldable pub cluster_shard_iterator : ClusterClient → ShardIterator
unfolding real_pinger
cluster_shard_iterator c = record {
  for_each = λ ctx. do
    visit ← c.for_each_shard ctx
    pure (record {
      nodes = map real_pinger visit.clients;
      delay = visit.delay;
      error = visit.error;
    });
}

-- The result for the error of a ping.
abbrev pub pinged : String → Option String → Result
pinged addr (some err) = record zero_result {
  component_id = addr;
  status = status_fail;
  output = err;
}
pinged addr none = record zero_result { component_id = addr; status = status_pass }

unfoldable pub ping_node : Context → NodePinger → Exec Result
ping_node ctx p = do err ← p.ping ctx; pure (pinged p.addr err)

unfoldable pub new_with_pinger : NodePinger → Check
unfolding ping_node
new_with_pinger p = record {
  name = default_name;
  component_type = default_component_type;
  timeout = default_timeout;
  run = some (λ ctx. do r ← ping_node ctx p; pure (r ∷ []));
}

-- An error of the visit counts only where no node was visited.
pub with_error : Option String → List Result → List Result
with_error (some err) [] = record zero_result { status = status_fail; output = err } ∷ []
with_error _ out = out

-- The rest of Run once the nodes are known: the callbacks run concurrently.
unfoldable pub after_visit : Context → Visit → Exec (List Result)
unfolding ping_node with_error
after_visit ctx visit = do
  out ← fork_join visit.delay (map (ping_node ctx) visit.nodes)
  pure (with_error visit.error out)

unfoldable pub new_with_iterator : ShardIterator → Check
unfolding after_visit
new_with_iterator it = record {
  name = default_name;
  component_type = default_component_type;
  timeout = default_timeout;
  run = some (λ ctx. do visit ← it.for_each ctx; after_visit ctx visit);
}

unfoldable pub new : RedisClient → Check
new client = new_with_pinger (real_pinger client)

unfoldable pub new_cluster : ClusterClient → Check
new_cluster client = new_with_iterator (cluster_shard_iterator client)
