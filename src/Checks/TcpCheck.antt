-- ===== src/Checks/TcpCheck.antt =====
-- checks/tcpcheck/tcpcheck.go. A dial takes time; so does closing the connection that it opened.
pub mod Contract
pub mod Health
pub mod Verdict
use go_health.Prelude.{String, List, [], ◌∷◌, Option, none, some}
use go_health.Go.Exec.{Exec, pure, ◌>>=◌}
use go_health.Go.Duration.{ℤ, seconds}
use go_health.Go.Context.{Context}
use go_health.Core.Status.{status_pass, status_fail}
use go_health.Core.Check.{Result, zero_result, Check}

abbrev pub default_name : String
default_name = "tcp"

abbrev pub default_component_type : String
default_component_type = "component"

abbrev pub default_timeout : ℤ
default_timeout = seconds 2

-- net.Conn: closing it returns the text of an error.
pub record Conn : Type 0 where
  pub close : Exec (Option String)

pub data Dialed : Type 0 where
  connected : Conn → Dialed
  refused : String → Dialed

pub record Dialer : Type 0 where
  pub dial_context : Context → String → String → Exec Dialed

-- The rest of Run after the dial. The error of Close is dropped.
pub after_dial : Result → Dialed → Exec (List Result)
after_dial r (refused err) = pure (record r { status = status_fail; output = err } ∷ [])
after_dial r (connected conn) = do _ ← conn.close; pure (record r { status = status_pass } ∷ [])

unfoldable pub new_with_dialer : Dialer → String → Check
unfolding after_dial
new_with_dialer d addr = record {
  name = default_name;
  component_type = default_component_type;
  timeout = default_timeout;
  run = some (λ ctx. do
    dialed ← d.dial_context ctx "tcp" addr
    after_dial (record zero_result { component_id = addr }) dialed);
}

-- `net_dialer` is &net.Dialer{}.
unfoldable pub new : Dialer → String → Check
new net_dialer addr = new_with_dialer net_dialer addr
