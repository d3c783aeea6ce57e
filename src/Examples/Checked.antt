-- ===== src/Examples/Checked.antt =====
-- Single runs of the ready-made checks.
use go_health.Prelude.{
  ◌≡◌, refl, ◌⊎◌, ◌↔◌, String, List, [], ◌∷◌, Option, none, some, ◌==◌, if◌then◌else◌,
}
use go_health.Go.Exec.{returned, takes, fork_join}
use go_health.Go.Json.{nil}
use go_health.Go.Time.{rfc3339_nano}
use go_health.Go.Decimal.{decimal}
use go_health.Go.Context.{background}
use go_health.Core.Status.{status_pass, status_fail}
use go_health.Core.Check.{ComponentStatus}
use go_health.Core.Observe.{run_one, observe, check_context}
use go_health.Core.Observe.Single.{Judged}
use go_health.Core.Aggregate.Strict.{Has}
use go_health.Checks.DbCheck as Db
use go_health.Checks.RedisCheck as Redis
use go_health.Checks.TcpCheck as Tcp
use go_health.Checks.HttpCheck as Http
use go_health.Checks.S3Check as S3
use go_health.Checks.DbCheck.Verdict.{new_reports}
use go_health.Checks.S3Check.{BucketHeader, new_with_header}
use go_health.Checks.TcpCheck.{Conn, connected, refused, Dialer, new_with_dialer}
use go_health.Checks.TcpCheck.Verdict.{dial_error, new_with_dialer_reports}
use go_health.Checks.HttpCheck.{Response, responded, errored, HttpDoer, new_with_doer}
use go_health.Checks.HttpCheck.Verdict.{answered, new_with_doer_reports}
use go_health.Checks.RedisCheck.{
  NodePinger, Visit, ShardIterator, RedisClient, ClusterClient, real_pinger, cluster_shard_iterator,
  new_with_pinger, new_with_iterator, new_cluster,
}
use go_health.Checks.RedisCheck.Verdict.{new_with_iterator_verdict, Unreachable}
use go_health.Examples.Shop.{pinger, at_once}

database_reports :
    (cs : ComponentStatus) × (run_one background (Db.new pinger) 3 ≡ returned (cs ∷ []) 12)
    × Judged (some "connection refused") cs
    × (cs.component_id ≡ "")
database_reports = new_reports pinger background 3 12 (some "connection refused") refl

abbrev bucket_there : BucketHeader
bucket_there = record { head_bucket = λ ctx input. takes 40 none }

-- A connection whose closing is an error.
abbrev conn : Conn
conn = record { close = takes 1 (some "use of closed network connection") }

abbrev dialer : Dialer
dialer = record {
  dial_context = λ ctx network addr.
      takes 6 (if addr == "db:5432" then connected conn else refused "no such host");
}

address_reports :
    (cs : ComponentStatus) × (run_one background (new_with_dialer dialer "db:5432") 0
      ≡ returned (cs ∷ []) 7)
    × Judged (dial_error (connected conn)) cs
    × (cs.component_id ≡ "db:5432")
address_reports =
    new_with_dialer_reports dialer "db:5432" background 0 6 (connected conn) 7 refl
      (some "use of closed network connection", refl)

abbrev url_error : String → Option String
url_error url = if url == "::" then some "missing protocol scheme" else none

abbrev too_busy : Response
too_busy = record {
  status_code = 503;
  body = record { drain = takes 3 (some "unexpected EOF"); close = takes 2 none };
}

abbrev doer : HttpDoer
doer = record {
  do_request = λ request. takes 10 (
      if request.url == "http://api/health"
      then responded too_busy
      else errored "no route to host");
}

new_with_doer_reports_example :
    (cs : ComponentStatus) × (run_one background
        (new_with_doer url_error doer "http://api/health")
        4
      ≡ returned (cs ∷ []) 19)
    × Judged (some "unexpected status: 503") cs
    × (cs.component_id ≡ "http://api/health")
unfolding decimal
new_with_doer_reports_example =
    new_with_doer_reports url_error doer "http://api/health" background 4 19
      (some "unexpected status: 503")
      (answered 14 17 19 too_busy (some "unexpected EOF") none refl refl refl refl)

abbrev redis_client : RedisClient
redis_client = record { ping_err = λ ctx. takes 5 none; options_addr = "10.0.0.1:6379" }

abbrev slow_client : RedisClient
slow_client = record {
  ping_err = λ ctx. takes 8 (some "i/o timeout");
  options_addr = "10.0.0.2:6379";
}

abbrev cluster : ClusterClient
cluster = record {
  for_each_shard = λ ctx.
      takes 1 (record { clients = redis_client ∷ slow_client ∷ []; delay = at_once; error = none });
}

abbrev shards : ShardIterator
shards = cluster_shard_iterator cluster

abbrev nodes : List NodePinger
nodes = real_pinger redis_client ∷ real_pinger slow_client ∷ []

abbrev visit : Visit
visit = record { nodes = nodes; delay = at_once; error = none }

abbrev shard_entry : String → String → String → ComponentStatus
shard_entry addr status output = record {
  component_id = addr;
  component_type = "datastore";
  observed_value = nil;
  observed_unit = "";
  status = status;
  affected_endpoints = [];
  time = "1970-01-01T00:00:00.000000009Z";
  output = output;
  links = [];
}

abbrev found : List ComponentStatus
found =
    shard_entry "10.0.0.1:6379" status_pass ""
    ∷ shard_entry "10.0.0.2:6379" status_fail "i/o timeout"
    ∷ []

shards_ran : run_one background (new_with_iterator shards) 0 ≡ returned found 9
unfolding run_one observe new_with_iterator cluster_shard_iterator fork_join rfc3339_nano
shards_ran = refl

shards_visited :
    shards.for_each (check_context background (new_with_iterator shards) 0) 0 ≡ returned visit 1
unfolding cluster_shard_iterator
shards_visited = refl

new_with_iterator_verdict_example :
    (Has status_fail found ↔ (
      Unreachable (check_context background (new_with_iterator shards) 0) 1 at_once nodes
      ⊎ ((err : String) × (visit.error ≡ some err) × (nodes ≡ []))))
    × ((found ≡ []) ↔ ((nodes ≡ []) × (visit.error ≡ none)))
new_with_iterator_verdict_example =
    new_with_iterator_verdict shards background 0 1 9 visit found shards_visited shards_ran

-- The constructors for the clients of the libraries.
library_clients :
    (Redis.new redis_client ≡ new_with_pinger (real_pinger redis_client))
    × (new_cluster cluster ≡ new_with_iterator shards)
    × (Tcp.new dialer "db:5432" ≡ new_with_dialer dialer "db:5432")
    × (Http.new url_error doer "http://api/health"
        ≡ new_with_doer url_error doer "http://api/health")
    × (S3.new bucket_there "orders" ≡ new_with_header bucket_there "orders")
unfolding Redis.new new_cluster Tcp.new Http.new S3.new
library_clients = (refl, refl, refl, refl, refl)
