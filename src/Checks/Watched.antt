-- ===== src/Checks/Watched.antt =====
-- The constructors of the packages under checks/, over services that are up or down.
use go_health.Prelude.{Bool, String, Option}
use go_health.Go.Duration.{ℤ}
use go_health.Go.Exec.Prompt.{Anything}
use go_health.Core.Check.{Check}
use go_health.Checks.Health.{Window, Answers, Whenever, Errs, Shows}
use go_health.Checks.DbCheck as Db
use go_health.Checks.DbCheck.Health as DbHealth
use go_health.Checks.S3Check as S3
use go_health.Checks.S3Check.Health as S3Health
use go_health.Checks.TcpCheck as Tcp
use go_health.Checks.TcpCheck.Health as TcpHealth
use go_health.Checks.HttpCheck as Http
use go_health.Checks.HttpCheck.Health as HttpHealth
use go_health.Checks.RedisCheck as Redis
use go_health.Checks.RedisCheck.Health as RedisHealth

-- A check of a constructor that looks after a service that is up, or down; with the name and the
-- timeout of the constructor, or with others.
pub data Watches (window : Window) (up : Bool) : Check → Type 0 where
  database :
      (p : Db.Pinger) → Answers window up (Errs up) p.ping_context → Watches window up (Db.new p)
  bucket :
      (client : S3.BucketHeader) (name : String)
      → Answers window up (Errs up) (λ ctx. client.head_bucket ctx (record { bucket = name }))
      → Watches window up (S3.new client name)
  address :
      (dialer : Tcp.Dialer) (addr : String)
      → Answers window up (TcpHealth.Reaches up) (λ ctx. dialer.dial_context ctx "tcp" addr)
      → Whenever TcpHealth.Settles (λ ctx. dialer.dial_context ctx "tcp" addr)
      → Watches window up (Tcp.new dialer addr)
  endpoint :
      (url_error : String → Option String) (client : Http.HttpDoer) (url : String)
      → HttpHealth.Endpoint window client url up (url_error url)
      → Whenever HttpHealth.Settles
          (λ ctx. client.do_request (record { ctx = ctx; method = "GET"; url = url }))
      → Watches window up (Http.new url_error client url)
  node :
      (client : Redis.RedisClient)
      → Answers window up (Errs up) client.ping_err
      → Watches window up (Redis.new client)
  cluster :
      (client : Redis.ClusterClient)
      → Answers window up (RedisHealth.ShardsUp window up) client.for_each_shard
      → Whenever Anything client.for_each_shard
      → Watches window up (Redis.new_cluster client)
  tuned :
      {c : Check}
      → Watches window up c
      → (name : String) (timeout : ℤ)
      → Watches window up (record c { name = name; timeout = timeout })

pub Watches-Shows :
    {window : Window} {up : Bool} {c : Check} → Watches window up c → Shows window up c
unfolding S3.new Tcp.new Http.new
Watches-Shows {window} {up} (database p h) = DbHealth.new-Shows p window up h
Watches-Shows {window} {up} (bucket client name h) =
    S3Health.new_with_header-Shows client name window up h
Watches-Shows {window} {up} (address dialer addr h settles) =
    TcpHealth.new_with_dialer-Shows window dialer addr up h settles
Watches-Shows {window} {up} (endpoint url_error client url h settles) =
    HttpHealth.new_with_doer-Shows window client url url_error up h settles
Watches-Shows {window} {up} (node client h) = RedisHealth.new-Shows window client up h
Watches-Shows {window} {up} (cluster client h calls) =
    RedisHealth.new_cluster-Shows window client up h calls
Watches-Shows (tuned watches name timeout) =
    let shows = Watches-Shows watches in
    record { run = shows.run; has_run = shows.has_run; gives = shows.gives }
