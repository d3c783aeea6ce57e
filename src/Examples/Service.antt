-- ===== src/Examples/Service.antt =====
-- A service that watches one of each: a database, a bucket, an address, an endpoint, a Redis node and
-- a Redis cluster. Some of them do not answer.
use go_health.Prelude.{
  ℕ, ◌+◌, ◌*◌, ◌≤◌, ◌≡◌, refl, List, [], ◌∷◌, none, some, map, All, arith, ne_of_test, String,
  Option, ltb, if◌then◌else◌,
}
use go_health.Go.Duration.{add, seconds}
use go_health.Go.Exec.{Exec, returned, takes, fork_join}
use go_health.Go.Exec.Prompt.{Ends, Anything, Honours}
use go_health.Go.Context.{Context, background}
use go_health.Go.Http.{fresh}
use go_health.Core.Check.{Check, ComponentStatus}
use go_health.Core.Engine.{Engine, default_logger, done}
use go_health.Core.Engine.History.{
  Scope, health, readiness, liveness, ready, IsFree, build, build-done,
}
use go_health.Core.Observe.{run_one}
use go_health.Adapters.Http.{Handler, Served, livez_handler, readyz_handler, healthz_handler}
use go_health.Adapters.Http.Timely.{Told}
use go_health.Adapters.HttpRouter.{mount}
use go_health.Checks.DbCheck as Db
use go_health.Checks.S3Check as S3
use go_health.Checks.TcpCheck as Tcp
use go_health.Checks.TcpCheck.Contract.{Closes}
use go_health.Checks.HttpCheck as Http
use go_health.Checks.HttpCheck.Contract.{Drains}
use go_health.Checks.RedisCheck as Redis
use go_health.Checks.RedisCheck.Contract.{Shards}
use go_health.Checks.ReadyMade.{
  tuned, ReadyMade, database, bucket, address, endpoint, node, cluster,
}
use go_health.Checks.Service.{service_answers}
use go_health.Examples.Shop.{at_once}
use go_health.Examples.Routed.{RouteTable, with_route, tables, routes}
use go_health.Examples.Timed.{gives_up, gives_up-Honours}

takes-Ends :
    {A : Type 0} (d g elapsed : ℕ) (P : A → Type 0) (a : A)
    → elapsed ≤ g
    → P a
    → Ends d g P (takes elapsed a)
takes-Ends d g elapsed P a short holds s = (a, s + elapsed, refl, omega arith, holds)

abbrev pub silent : Db.Pinger
silent = record { ping_context = gives_up (some "context deadline exceeded") }

abbrev pub store : S3.BucketHeader
store = record { head_bucket = λ ctx input. takes 40 none }

abbrev pub line : Tcp.Dialer
line = record {
  dial_context = λ ctx network addr. takes 6 (Tcp.connected (record { close = takes 1 none }));
}

line-Closes : Honours (Closes 50) 50 (λ ctx. line.dial_context ctx "tcp" "mail:25")
line-Closes ctx d over =
    takes-Ends d 50 6 (Closes 50 d) (Tcp.connected (record { close = takes 1 none })) (omega arith)
      (takes-Ends d 50 1 Anything none (omega arith) tt)

abbrev pub page : Http.Response
page = record { status_code = 302; body = record { drain = takes 3 none; close = takes 2 none } }

abbrev pub browser : Http.HttpDoer
browser = record { do_request = λ request. takes 10 (Http.responded page) }

browser-Drains :
    Honours
      (Drains 50)
      50
      (λ ctx. browser.do_request (record { ctx = ctx; method = "GET"; url = "http://api/" }))
browser-Drains ctx d over = takes-Ends d 50 10 (Drains 50 d) (Http.responded page) (omega arith) (
  takes-Ends d 50 3 Anything none (omega arith) tt,
  takes-Ends d 50 2 Anything none (omega arith) tt,
)

-- It loads its data until the reading 6.
abbrev pub ping_cache : Context → Exec (Option String)
ping_cache ctx s = returned (if ltb s 6 then some "LOADING" else none) (s + 5)

abbrev pub cache : Redis.RedisClient
cache = record { ping_err = ping_cache; options_addr = "10.0.0.1:6379" }

abbrev pub lost : Redis.RedisClient
lost = record { ping_err = gives_up (some "i/o timeout"); options_addr = "10.0.0.2:6379" }

cache-Honours : Honours (λ d. Anything) 50 cache.ping_err
cache-Honours ctx d over s = (_, s + 5, refl, omega arith, tt)

abbrev pub shards : Redis.ShardVisit
shards = record { clients = cache ∷ lost ∷ []; delay = λ i. i; error = none }

abbrev pub sharded : Redis.ClusterClient
sharded = record { for_each_shard = λ ctx. takes 1 shards }

sharded-Shards : Honours (Shards 50) 50 sharded.for_each_shard
sharded-Shards ctx d over = takes-Ends d 50 1 (Shards 50 d) shards (omega arith) (
  λ i below. omega arith,
  (cache-Honours, (gives_up-Honours (λ d. Anything) 50 (some "i/o timeout") (λ d. tt), tt)),
)

abbrev patient : Check
patient = record (Db.new silent) { name = "database:orders"; timeout = seconds 5 }

abbrev pub history : List (Scope × Check)
history =
    (readiness, patient)
    ∷ (health, S3.new store "orders")
    ∷ (readiness, Tcp.new line "mail:25")
    ∷ (readiness, Http.new (λ url. none) browser "http://api/")
    ∷ (liveness, Redis.new cache)
    ∷ (readiness, Redis.new_cluster sharded)
    ∷ []

pub history-ReadyMade : All (λ r. ReadyMade 50 r.1) history
history-ReadyMade = (
  tuned
      (database silent
        (gives_up-Honours (λ d. Anything) 50 (some "context deadline exceeded") (λ d. tt)))
      "database:orders" (seconds 5) refl (λ latest. omega arith),
  (
    bucket store "orders" (λ ctx d over. takes-Ends d 50 40 Anything none (omega arith) tt),
    (
      address line "mail:25" line-Closes,
      (
        endpoint (λ url. none) browser "http://api/" browser-Drains,
        (node cache cache-Honours, (cluster sharded sharded-Shards, tt)),
      ),
    ),
  ),
)

history-IsFree : All IsFree history
unfolding Db.new S3.new S3.new_with_header Tcp.new Tcp.new_with_dialer Http.new Http.new_with_doer
    Redis.new Redis.new_with_pinger Redis.new_cluster Redis.new_with_iterator
history-IsFree = (
  ne_of_test _ _ refl,
  (
    ne_of_test _ _ refl,
    (ne_of_test _ _ refl, (ne_of_test _ _ refl, (ne_of_test _ _ refl, (ne_of_test _ _ refl, tt)))),
  ),
)

abbrev pub engine : Engine
engine = record {
  service_id = "orders";
  description = "";
  logger = some default_logger;
  livez = Redis.new cache ∷ [];
  readyz =
      patient
      ∷ Tcp.new line "mail:25"
      ∷ Http.new (λ url. none) browser "http://api/"
      ∷ Redis.new cache
      ∷ Redis.new_cluster sharded
      ∷ [];
  healthz =
      patient
      ∷ S3.new store "orders"
      ∷ Tcp.new line "mail:25"
      ∷ Http.new (λ url. none) browser "http://api/"
      ∷ Redis.new cache
      ∷ Redis.new_cluster sharded
      ∷ [];
}

pub engine_built : build "orders" "" [] history ≡ done engine
engine_built = build-done "orders" "" [] history history-IsFree

abbrev pub mounted : RouteTable
mounted =
    with_route
      (with_route (with_route (λ m p. none) "GET" "/livez" (livez_handler engine at_once)) "GET"
        "/readyz" (readyz_handler engine at_once))
      "GET" "/healthz" (healthz_handler engine at_once)

pub engine-mounted : mount tables (λ m p. none) engine at_once routes ≡ done mounted
unfolding mount
engine-mounted = refl

service_answers_example :
    (serve : Handler) × (served : Served) × (w : ℕ) × (slots : List (List ComponentStatus))
    × (mounted "GET" "/readyz" ≡ some serve)
    × (serve background (fresh none) 7 ≡ returned served w)
    × (w ≤ add 7 (seconds 5) + 3 * 50)
    × (fork_join at_once (map (run_one background) engine.readyz) 7 ≡ returned slots w)
    × Told served.writer.status slots
service_answers_example =
    service_answers tables (λ m p. none) mounted routes "orders" "" [] history engine default_logger
      ready at_once background none 50 7 7 engine_built history-ReadyMade engine-mounted tt tt tt
      refl (omega arith) (λ i below. omega arith)
