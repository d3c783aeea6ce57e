-- ===== src/Checks/HttpCheck.antt =====
-- checks/httpcheck/httpcheck.go. The client is a parameter, as in the source; so is the parser of
-- net/url, of which it matters only whether it refuses the text of the URL.
pub mod Contract
pub mod Health
pub mod Verdict
use Prim.Native.String
use go_health.Prelude.{ℕ, String, List, [], ◌∷◌, Option, none, some, ltb, leb, ◌&&◌, if◌then◌else◌}
use go_health.Go.Exec.{Exec, pure, ◌>>=◌}
use go_health.Go.Duration.{ℤ, seconds}
use go_health.Go.Context.{Context}
use go_health.Go.Decimal.{decimal}
use go_health.Core.Status.{status_pass, status_fail}
use go_health.Core.Check.{Result, zero_result, Check}

abbrev pub default_name : String
default_name = "http"

abbrev pub default_component_type : String
default_component_type = "component"

abbrev pub default_timeout : ℤ
default_timeout = seconds 5

pub record Request : Type 0 where
  pub ctx : Context
  pub method : String
  pub url : String

-- resp.Body: reading it to the end, and closing it, may each return the text of an error.
pub record Body : Type 0 where
  pub drain : Exec (Option String)
  pub close : Exec (Option String)

pub record Response : Type 0 where
  pub status_code : ℕ
  pub body : Body

pub data Done : Type 0 where
  responded : Response → Done
  errored : String → Done

pub record HttpDoer : Type 0 where
  pub do_request : Request → Exec Done

-- The result for a status code.
pub judge : Result → ℕ → Result
judge r code =
    if leb 200 code && ltb code 400 then record r { status = status_pass } else record r {
      status = status_fail;
      output = String.◌++◌ "unexpected status: " (decimal code);
    }

-- The rest of Run after client.Do. The body is drained at once and closed at the return; the errors
-- of both are dropped.
pub after_do : Result → Done → Exec (List Result)
unfolding judge
after_do r (errored err) = pure (record r { status = status_fail; output = err } ∷ [])
after_do r (responded resp) = do
  _ ← resp.body.drain
  let judged = judge r resp.status_code
  _ ← resp.body.close
  pure (judged ∷ [])

-- The rest of Run after http.NewRequestWithContext, which fails where the URL does not parse.
pub after_request : HttpDoer → Context → String → Result → Option String → Exec (List Result)
unfolding after_do
after_request d ctx url r (some err) = pure (record r { status = status_fail; output = err } ∷ [])
after_request d ctx url r none = do
  done ← d.do_request (record { ctx = ctx; method = "GET"; url = url })
  after_do r done

unfoldable pub new_with_doer : (String → Option String) → HttpDoer → String → Check
unfolding after_request
new_with_doer url_error d url = record {
  name = default_name;
  component_type = default_component_type;
  timeout = default_timeout;
  run =
      some (λ ctx.
        after_request d ctx url (record zero_result { component_id = url }) (url_error url));
}

-- `client` is an *http.Client.
unfoldable pub new : (String → Option String) → HttpDoer → String → Check
new url_error client url = new_with_doer url_error client url
