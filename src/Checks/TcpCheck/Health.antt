-- ===== src/Checks/TcpCheck/Health.antt =====
-- checks/tcpcheck/tcpcheck.go: what Run says of the address, from the dials.
use go_health.Prelude.{◌≡◌, refl, Bool, true, false, String, inl, [], ◌∷◌}
use go_health.Go.Exec.Prompt.{Anything}
use go_health.Go.Exec.Always.{
  Always, Always-pure, Always-value, Always->>=, Since, Since-pure, Since->>=,
}
use go_health.Go.Context.{Context}
use go_health.Core.Status.{status_pass}
use go_health.Core.Check.{Result, zero_result}
use go_health.Checks.Health.{
  Window, Live, Answers, Whenever, IsForward, IsForward-Since, Gives, Shows,
}
use go_health.Checks.TcpCheck.{
  Conn, Dialed, connected, refused, Dialer, after_dial, new_with_dialer,
}

-- A dial of an address that is up, or down.
abbrev pub Reaches : Bool → Dialed → Type 0
Reaches true dialed = (conn : Conn) × (dialed ≡ connected conn)
Reaches false dialed = (err : String) × (dialed ≡ refused err)

-- To close a connection takes no negative time.
abbrev pub Settles : Dialed → Type 0
Settles (connected conn) = IsForward conn.close
Settles (refused err) = Unit

module _ (window : Window) where
  module _ (up : Bool) (ctx : Context) where
    after_dial-Since :
        (r : Result) (dialed : Dialed)
        → Settles dialed
        → Since (Live window up ctx) (after_dial r dialed)
    unfolding after_dial
    after_dial-Since r (connected conn) forward =
        Since->>= (Live window up ctx) conn.close _
          (IsForward-Since window up ctx conn.close forward)
          (λ _. Since-pure (Live window up ctx) _)
    after_dial-Since r (refused err) forward = Since-pure (Live window up ctx) _

  after_dial-Gives :
      (up : Bool) (ctx : Context) (r : Result) (dialed : Dialed)
      → Reaches up dialed
      → Always window.from (Live window up ctx) (Gives up) (after_dial r dialed)
  unfolding after_dial
  after_dial-Gives true ctx r (connected conn) h =
      Always-value window.from (Live window true ctx) Anything (Gives true) conn.close
        (λ _. record r { status = status_pass } ∷ []) (λ _ _ _ _ _ _. tt) (λ _ _. (refl, tt))
  after_dial-Gives false ctx r (refused err) h =
      Always-pure window.from (Live window false ctx) (Gives false) _ (inl refl)
  after_dial-Gives true ctx r (refused err) (conn, h) = cc
  after_dial-Gives false ctx r (connected conn) (err, h) = cc

  pub new_with_dialer-Shows :
      (dialer : Dialer) (addr : String) (up : Bool)
      → Answers window up (Reaches up) (λ ctx. dialer.dial_context ctx "tcp" addr)
      → Whenever Settles (λ ctx. dialer.dial_context ctx "tcp" addr)
      → Shows window up (new_with_dialer dialer addr)
  unfolding new_with_dialer
  new_with_dialer-Shows dialer addr up reaches settles = record {
    run = _;
    has_run = refl;
    gives = λ ctx.
        let r : Result = record zero_result { component_id = addr } in
        Always->>= window.from (Live window up ctx) Settles (Reaches up) (Gives up)
          (dialer.dial_context ctx "tcp" addr) (after_dial r) (settles ctx) (reaches ctx)
          (after_dial-Since up ctx r) (after_dial-Gives up ctx r);
  }
