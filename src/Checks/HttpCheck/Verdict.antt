-- ===== src/Checks/HttpCheck/Verdict.antt =====
-- What the HTTP check reports.
use Prim.Native.String
use go_health.Prelude.{
  ℕ, leb, ltb, ◌&&◌, if◌then◌else◌, true, false, ◌≤◌, ◌<◌, ◌≡◌, refl, ap, ◌∙◌, ◌⊎◌, inl, inr,
  String, [], ◌∷◌, Option, none, some, arith,
}
use go_health.Go.Exec.{returned, continue}
use go_health.Go.Context.{Context}
use go_health.Go.Decimal.{decimal}
use go_health.Core.Status.{status_fail}
use go_health.Core.Check.{Result, zero_result, Check, ComponentStatus}
use go_health.Core.Observe.{check_context, run_one}
use go_health.Core.Observe.Single.{Says, Judged, run_one_single}
use go_health.Checks.HttpCheck.{
  Request, Response, responded, errored, HttpDoer, judge, after_do, after_request, new_with_doer,
}

-- The text for a status code that is no success.
abbrev pub unexpected : ℕ → String
unexpected code = String.◌++◌ "unexpected status: " (decimal code)

-- 2xx and 3xx pass, all else fails with the code.
judge-Says :
    (r : Result) (code : ℕ)
    → ((200 ≤ code) × (code < 400) × Says none (judge r code))
      ⊎ (((code < 200) ⊎ (400 ≤ code)) × Says (some (unexpected code)) (judge r code))
unfolding judge
judge-Says r code = ground arith

after_do-responded :
    (r : Result) (resp : Response) (u v w : ℕ) (drained closed : Option String)
    → resp.body.drain u ≡ returned drained v
    → resp.body.close v ≡ returned closed w
    → after_do r (responded resp) u ≡ returned (judge r resp.status_code ∷ []) w
unfolding after_do
after_do-responded r resp u v w drained closed e c = simp (e, c)

after_do-errored :
    (r : Result) (err : String) (u : ℕ)
    → after_do r (errored err) u ≡ returned (record r { status = status_fail; output = err } ∷ []) u
unfolding after_do
after_do-errored r err u = refl

judge-component_id : (r : Result) (code : ℕ) → (judge r code).component_id ≡ r.component_id
unfolding judge
judge-component_id r code = ground arith

abbrev request : Context → String → Request
request ctx url = record { ctx = ctx; method = "GET"; url = url }

after_request-none :
    (d : HttpDoer) (ctx : Context) (url : String) (r : Result) (t : ℕ) (err : Option String)
    → err ≡ none
    → after_request d ctx url r err t ≡ continue (d.do_request (request ctx url) t) (after_do r)
unfolding after_request
after_request-none d ctx url r t err e = rw e

after_request-some :
    (d : HttpDoer) (ctx : Context) (url : String) (r : Result) (t : ℕ) (err : Option String)
    (message : String)
    → err ≡ some message
    → after_request d ctx url r err t
      ≡ returned (record r { status = status_fail; output = message } ∷ []) t
unfolding after_request
after_request-some d ctx url r t err message e = rw e

module _ (url_error : String → Option String) (d : HttpDoer) (url : String) (ctx : Context)
    (t : ℕ) where
  abbrev check : Check
  check = new_with_doer url_error d url

  abbrev blank : Result
  blank = record zero_result { component_id = url }

  url_refused :
      (err : String)
      → url_error url ≡ some err
      → (cs : ComponentStatus) × (run_one ctx check t ≡ returned (cs ∷ []) t)
        × Judged (some err) cs
        × (cs.component_id ≡ url)
  unfolding new_with_doer
  url_refused err e =
      run_one_single ctx check t t _ (record blank { status = status_fail; output = err })
        (some err) refl (after_request-some d _ url blank t (url_error url) err e) (refl, refl)

  request_failed :
      (u : ℕ) (err : String)
      → url_error url ≡ none
      → d.do_request (request (check_context ctx check t) url) t ≡ returned (errored err) u
      → (cs : ComponentStatus) × (run_one ctx check t ≡ returned (cs ∷ []) u)
        × Judged (some err) cs
        × (cs.component_id ≡ url)
  unfolding new_with_doer
  request_failed u err parsed e =
      run_one_single ctx check t u _ (record blank { status = status_fail; output = err })
        (some err) refl
        (after_request-none d _ url blank t (url_error url) parsed
          ∙ ap (λ o. continue o (after_do blank)) e
          ∙ after_do-errored blank err u)
        (refl, refl)

  request_responded :
      (u v w : ℕ) (resp : Response) (drained closed : Option String)
      → url_error url ≡ none
      → d.do_request (request (check_context ctx check t) url) t ≡ returned (responded resp) u
      → resp.body.drain u ≡ returned drained v
      → resp.body.close v ≡ returned closed w
      → (cs : ComponentStatus) × (run_one ctx check t ≡ returned (cs ∷ []) w)
        × (cs.component_id ≡ url)
        × (((200 ≤ resp.status_code) × (resp.status_code < 400) × Judged none cs)
            ⊎ (((resp.status_code < 200) ⊎ (400 ≤ resp.status_code))
                × Judged (some (unexpected resp.status_code)) cs))
  unfolding new_with_doer
  request_responded u v w resp drained closed parsed e dr cl =
      let ran =
        after_request-none d (check_context ctx check t) url blank t (url_error url) parsed
        ∙ ap (λ o. continue o (after_do blank)) e
        ∙ after_do-responded blank resp u v w drained closed dr cl in
      elim (judge-Says blank resp.status_code) [
        | inl (low, high, says) ↦
            let (cs, done, judged, id) = run_one_single ctx check t w _ _ none refl ran says in
            (cs, done, id ∙ judge-component_id blank resp.status_code, inl (low, high, judged))
        | inr (outside, says) ↦
            let (cs, done, judged, id) =
              run_one_single ctx check t w _ _ (some (unexpected resp.status_code)) refl ran says in
            (cs, done, id ∙ judge-component_id blank resp.status_code, inr (outside, judged))
      ]

  -- The error that a status code is.
  abbrev pub code_error : ℕ → Option String
  code_error code = if leb 200 code && ltb code 400 then none else some (unexpected code)

  -- What becomes of a request for the URL: the reading at which the check is through with it, and the
  -- error, if any. The client is asked for a GET, under the context with the deadline of the check.
  pub data Exchange : ℕ → Option String → Type 0 where
    unparsed : (err : String) → url_error url ≡ some err → Exchange t (some err)
    undone :
        (u : ℕ) (err : String)
        → url_error url ≡ none
        → d.do_request (request (check_context ctx check t) url) t ≡ returned (errored err) u
        → Exchange u (some err)
    answered :
        (u v w : ℕ) (resp : Response) (drained closed : Option String)
        → url_error url ≡ none
        → d.do_request (request (check_context ctx check t) url) t ≡ returned (responded resp) u
        → resp.body.drain u ≡ returned drained v
        → resp.body.close v ≡ returned closed w
        → Exchange w (code_error resp.status_code)

  Judged-code_error :
      (cs : ComponentStatus) (code : ℕ)
      → ((200 ≤ code) × (code < 400) × Judged none cs)
        ⊎ (((code < 200) ⊎ (400 ≤ code)) × Judged (some (unexpected code)) cs)
      → Judged (code_error code) cs
  Judged-code_error cs code h = elim h [
    | inl (low, high, judged) ↦
        let within : leb 200 code && ltb code 400 ≡ true = ground arith in rw within judged
    | inr (outside, judged) ↦
        let no_success : leb 200 code && ltb code 400 ≡ false = ground arith in rw no_success judged
  ]

  -- The check has one entry, for the URL. It fails at once where the URL does not parse, without a
  -- call of the client, and it fails where the client returns an error, each time with the text of the
  -- error. Of a response it passes the codes from 200 to 399 and fails all others, with the code in
  -- the output, once the body has been read and closed, whether or not that was an error.
  pub new_with_doer_reports :
      (w : ℕ) (err : Option String)
      → Exchange w err
      → (cs : ComponentStatus) × (run_one ctx check t ≡ returned (cs ∷ []) w)
        × Judged err cs
        × (cs.component_id ≡ url)
  new_with_doer_reports w err (unparsed text e) = url_refused text e
  new_with_doer_reports w err (undone u text parsed e) = request_failed u text parsed e
  new_with_doer_reports w err (answered u v w' resp drained closed parsed e dr cl) =
      let (cs, ran, id, verdict) = request_responded u v w' resp drained closed parsed e dr cl in
      (cs, ran, Judged-code_error cs resp.status_code verdict, id)
