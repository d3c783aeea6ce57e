-- ===== src/Checks/TcpCheck/Verdict.antt =====
-- What the TCP check reports.
use go_health.Prelude.{ℕ, ◌≡◌, refl, ap, ◌∙◌, String, [], ◌∷◌, Option, none, some}
use go_health.Go.Exec.{returned, continue}
use go_health.Go.Context.{Context}
use go_health.Core.Status.{status_pass}
use go_health.Core.Check.{Result, zero_result, ComponentStatus}
use go_health.Core.Observe.{check_context, run_one}
use go_health.Core.Observe.Single.{Judged, run_one_single}
use go_health.Checks.TcpCheck.{
  Conn, Dialed, connected, refused, Dialer, after_dial, new_with_dialer,
}

after_dial-connected :
    (r : Result) (conn : Conn) (u v : ℕ) (closed : Option String)
    → conn.close u ≡ returned closed v
    → after_dial r (connected conn) u ≡ returned (record r { status = status_pass } ∷ []) v
unfolding after_dial
after_dial-connected r conn u v closed c = rw c

-- The error that a dial is.
abbrev pub dial_error : Dialed → Option String
dial_error (refused err) = some err
dial_error (connected conn) = none

module _ (d : Dialer) (addr : String) (ctx : Context) (t u : ℕ) where
  dial_refused :
      (err : String)
      → d.dial_context (check_context ctx (new_with_dialer d addr) t) "tcp" addr t
        ≡ returned (refused err) u
      → (cs : ComponentStatus) × (run_one ctx (new_with_dialer d addr) t ≡ returned (cs ∷ []) u)
        × Judged (some err) cs
        × (cs.component_id ≡ addr)
  unfolding new_with_dialer
  dial_refused err e =
      run_one_single ctx (new_with_dialer d addr) t u _ _ (some err) refl
        (ap (λ o. continue o (after_dial (record zero_result { component_id = addr }))) e)
        (refl, refl)

  dial_connected :
      (conn : Conn) (closed : Option String) (v : ℕ)
      → d.dial_context (check_context ctx (new_with_dialer d addr) t) "tcp" addr t
        ≡ returned (connected conn) u
      → conn.close u ≡ returned closed v
      → (cs : ComponentStatus) × (run_one ctx (new_with_dialer d addr) t ≡ returned (cs ∷ []) v)
        × Judged none cs
        × (cs.component_id ≡ addr)
  unfolding new_with_dialer
  dial_connected conn closed v e c =
      let blank : Result = record zero_result { component_id = addr } in
      run_one_single ctx (new_with_dialer d addr) t v _ (record blank { status = status_pass }) none
        refl
        (ap (λ o. continue o (after_dial blank)) e ∙ after_dial-connected blank conn u v closed c)
        refl

  -- The check ends at `v`: at once where the dial was refused, and once the connection is closed
  -- where there is one.
  abbrev pub EndsAt : Dialed → ℕ → Type 0
  EndsAt (refused err) v = u ≡ v
  EndsAt (connected conn) v = (closed : Option String) × (conn.close u ≡ returned closed v)

  -- When the dial returns, over TCP and under the context with the deadline of the check, the check
  -- has one entry, for the address: where the dial was refused it fails at once with the text of the
  -- error; where it connected it passes, once the connection is closed, and whether or not closing
  -- was an error.
  pub new_with_dialer_reports :
      (dialed : Dialed) (v : ℕ)
      → d.dial_context (check_context ctx (new_with_dialer d addr) t) "tcp" addr t
        ≡ returned dialed u
      → EndsAt dialed v
      → (cs : ComponentStatus) × (run_one ctx (new_with_dialer d addr) t ≡ returned (cs ∷ []) v)
        × Judged (dial_error dialed) cs
        × (cs.component_id ≡ addr)
  new_with_dialer_reports (refused err) v e ends = rw (← ends) (dial_refused err e)
  new_with_dialer_reports (connected conn) v e (closed, c) = dial_connected conn closed v e c
