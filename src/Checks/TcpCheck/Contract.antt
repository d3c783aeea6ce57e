-- ===== src/Checks/TcpCheck/Contract.antt =====
-- checks/tcpcheck/tcpcheck.go: the contract of Run, from that of the dialer and its connections.
use go_health.Prelude.{ℕ, ◌+◌, refl, String, [], ◌∷◌, All, arith}
use go_health.Go.Exec.Prompt.{Ends, Ends-value, Ends-pure, Ends->>=, Anything, Honours}
use go_health.Core.Status.{status_pass}
use go_health.Core.Check.{Result, zero_result}
use go_health.Checks.Contract.{IsPlain, Promises}
use go_health.Checks.TcpCheck.{Dialed, connected, refused, Dialer, after_dial, new_with_dialer}

-- A connection that was opened closes soon.
abbrev pub Closes : ℕ → ℕ → Dialed → Type 0
Closes g d (connected conn) = Ends d g Anything conn.close
Closes g d (refused err) = Unit

after_dial-Ends :
    (d g : ℕ) (r : Result) (dialed : Dialed)
    → IsPlain r
    → Closes g d dialed
    → Ends d g (All IsPlain) (after_dial r dialed)
unfolding after_dial
after_dial-Ends d g r (connected conn) plain closes =
    Ends-value d g Anything (All IsPlain) conn.close (λ _. record r { status = status_pass } ∷ [])
      closes (λ _ _. (plain, tt))
after_dial-Ends d g r (refused err) plain _ = Ends-pure d g (All IsPlain) _ (plain, tt)

pub new_with_dialer-Promises :
    (dialer : Dialer) (addr : String) (g : ℕ)
    → Honours (Closes g) g (λ ctx. dialer.dial_context ctx "tcp" addr)
    → Promises (g + g) (new_with_dialer dialer addr)
unfolding new_with_dialer
new_with_dialer-Promises dialer addr g dials = record {
  run = _;
  has_run = refl;
  honours = λ ctx d over.
      let r : Result = record zero_result { component_id = addr } in
      Ends->>= d g g (Closes g d) (All IsPlain) (dialer.dial_context ctx "tcp" addr) (after_dial r)
        (dials ctx d over) (λ dialed closes. after_dial-Ends d g r dialed refl closes);
  limited = refl;
  soon = λ latest. omega arith;
}
