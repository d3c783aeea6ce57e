-- ===== src/Checks/ReadyMade.antt =====
-- The constructors of the packages under checks/, over clients that stop once their context is done.
use go_health.Prelude.{◌≡◌, ◌≤◌, true, ℕ, ◌*◌, String, Option, arith}
use go_health.Go.Duration.{ℤ, add, is_positive, seconds}
use go_health.Go.Exec.Prompt.{Anything, Honours}
use go_health.Core.Check.{Check}
use go_health.Checks.Contract.{Promises, Promises-mono}
use go_health.Checks.DbCheck as Db
use go_health.Checks.DbCheck.Contract as DbContract
use go_health.Checks.S3Check as S3
use go_health.Checks.S3Check.Contract as S3Contract
use go_health.Checks.TcpCheck as Tcp
use go_health.Checks.TcpCheck.Contract as TcpContract
use go_health.Checks.HttpCheck as Http
use go_health.Checks.HttpCheck.Contract as HttpContract
use go_health.Checks.RedisCheck as Redis
use go_health.Checks.RedisCheck.Contract as RedisContract

-- A check of a constructor whose client returns from each call no later than `g` after its context is
-- done, or after its own start; with the name and the timeout of the constructor, or with others.
pub data ReadyMade (g : ℕ) : Check → Type 0 where
  database : (p : Db.Pinger) → Honours (λ d. Anything) g p.ping_context → ReadyMade g (Db.new p)
  bucket :
      (client : S3.BucketHeader) (name : String)
      → Honours (λ d. Anything) g (λ ctx. client.head_bucket ctx (record { bucket = name }))
      → ReadyMade g (S3.new client name)
  address :
      (dialer : Tcp.Dialer) (addr : String)
      → Honours (TcpContract.Closes g) g (λ ctx. dialer.dial_context ctx "tcp" addr)
      → ReadyMade g (Tcp.new dialer addr)
  endpoint :
      (url_error : String → Option String) (client : Http.HttpDoer) (url : String)
      → Honours
          (HttpContract.Drains g)
          g
          (λ ctx. client.do_request (record { ctx = ctx; method = "GET"; url = url }))
      → ReadyMade g (Http.new url_error client url)
  node :
      (client : Redis.RedisClient)
      → Honours (λ d. Anything) g client.ping_err
      → ReadyMade g (Redis.new client)
  cluster :
      (client : Redis.ClusterClient)
      → Honours (RedisContract.Shards g) g client.for_each_shard
      → ReadyMade g (Redis.new_cluster client)
  -- A caller may override the name and the timeout.
  tuned :
      {c : Check}
      → ReadyMade g c
      → (name : String) (timeout : ℤ) → is_positive timeout ≡ true
      → ((latest : ℕ) → add latest timeout ≤ add latest (seconds 5))
      → ReadyMade g (record c { name = name; timeout = timeout })

pub ReadyMade-Promises : {g : ℕ} {c : Check} → ReadyMade g c → Promises (3 * g) c
unfolding S3.new Tcp.new Http.new
ReadyMade-Promises {g} (database p h) =
    Promises-mono (Db.new p) (omega arith) (DbContract.new-Promises p g h)
ReadyMade-Promises {g} (bucket client name h) =
    Promises-mono (S3.new client name) (omega arith)
      (S3Contract.new_with_header-Promises client name g h)
ReadyMade-Promises {g} (address dialer addr h) =
    Promises-mono (Tcp.new dialer addr) (omega arith)
      (TcpContract.new_with_dialer-Promises dialer addr g h)
ReadyMade-Promises {g} (endpoint url_error client url h) =
    Promises-mono (Http.new url_error client url) (omega arith)
      (HttpContract.new_with_doer-Promises url_error client url g h)
ReadyMade-Promises {g} (node client h) =
    Promises-mono (Redis.new client) (omega arith) (RedisContract.new-Promises client g h)
ReadyMade-Promises {g} (cluster client h) =
    Promises-mono (Redis.new_cluster client) (omega arith)
      (RedisContract.new_cluster-Promises client g h)
ReadyMade-Promises (tuned made name timeout limited soon) =
    let p = ReadyMade-Promises made in
    record { run = p.run; has_run = p.has_run; honours = p.honours; limited = limited; soon = soon }
