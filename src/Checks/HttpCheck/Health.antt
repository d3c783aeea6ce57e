-- ===== src/Checks/HttpCheck/Health.antt =====
-- checks/httpcheck/httpcheck.go: what Run says of the endpoint, from its answers.
use mathlib.Core.Path.{subst}
use go_health.Prelude.{
  ℕ, ◌≡◌, refl, Bool, true, false, String, Option, none, some, inl, inr, ◌⊎◌, [], ◌∷◌, ltb, leb,
  ◌&&◌,
}
use go_health.Go.Exec.Always.{Always, Always-pure, Always->>=, Since, Since-pure, Since->>=}
use go_health.Go.Exec.{Exec, continue-eq-returned}
use go_health.Go.Context.{Context}
use go_health.Core.Check.{Result, zero_result}
use go_health.Checks.Health.{
  Window, Live, Answers, Whenever, IsForward, IsForward-Since, Gives, Shows,
}
use go_health.Checks.HttpCheck.{
  Response, Done, responded, errored, HttpDoer, judge, after_do, after_request, new_with_doer,
}

-- A status code from 200 to 399.
abbrev pub is_good : ℕ → Bool
is_good code = leb 200 code && ltb code 400

-- An answer of an endpoint that is up, or down.
abbrev pub Serves : Bool → Done → Type 0
Serves true outcome =
    (resp : Response) × (outcome ≡ responded resp) × (is_good resp.status_code ≡ true)
Serves false (responded resp) = is_good resp.status_code ≡ false
Serves false (errored err) = Unit

judge-Gives : (up : Bool) (r : Result) (code : ℕ) → is_good code ≡ up → Gives up (judge r code ∷ [])
unfolding judge
judge-Gives true r code h = rw h (refl, tt)
judge-Gives false r code h = rw h (inl refl)

-- To read a body and to close it takes no negative time.
abbrev pub Settles : Done → Type 0
Settles (responded resp) = IsForward resp.body.drain × IsForward resp.body.close
Settles (errored err) = Unit

module _ (window : Window) where
  module _ (up : Bool) (ctx : Context) (r : Result) where
    after_do-Since :
        (outcome : Done) → Settles outcome → Since (Live window up ctx) (after_do r outcome)
    unfolding after_do
    after_do-Since (responded resp) (drains, closes) =
        Since->>= (Live window up ctx) resp.body.drain _
          (IsForward-Since window up ctx resp.body.drain drains)
          (λ _.
            Since->>= (Live window up ctx) resp.body.close _
              (IsForward-Since window up ctx resp.body.close closes)
              (λ _. Since-pure (Live window up ctx) _))
    after_do-Since (errored err) h = Since-pure (Live window up ctx) _

    after_body :
        (resp : Response)
        → is_good resp.status_code ≡ up
        → Always window.from (Live window up ctx) (Gives up) (after_do r (responded resp))
    unfolding after_do
    after_body resp h s results v after e live =
        let (_, w, _, rest) = continue-eq-returned (resp.body.drain s) _ e in
        let (_, _, _, last) = continue-eq-returned (resp.body.close w) _ rest in
        let same : judge r resp.status_code ∷ [] ≡ results = cc in
        subst (Gives up) same (judge-Gives up r resp.status_code h)

  after_do-Gives :
      (up : Bool) (ctx : Context) (r : Result) (outcome : Done)
      → Serves up outcome
      → Always window.from (Live window up ctx) (Gives up) (after_do r outcome)
  unfolding after_do
  after_do-Gives true ctx r (responded resp) (resp', same, good) =
      let one : resp' ≡ resp = cc in after_body true ctx r resp (rw one at good)
  after_do-Gives false ctx r (responded resp) bad = after_body false ctx r resp bad
  after_do-Gives false ctx r (errored err) h =
      Always-pure window.from (Live window false ctx) (Gives false) _ (inl refl)
  after_do-Gives true ctx r (errored err) (resp, same, good) = cc

  module _ (doer : HttpDoer) (url : String) where
    abbrev request : Context → Exec Done
    request ctx = doer.do_request (record { ctx = ctx; method = "GET"; url = url })

    -- The URL parses and the endpoint answers well, or one of the two is not so.
    abbrev pub Endpoint : Bool → Option String → Type 0
    Endpoint true err = (err ≡ none) × Answers window true (Serves true) request
    Endpoint false err =
        ((message : String) × (err ≡ some message)) ⊎ Answers window false (Serves false) request

    after_request-Gives :
        (up : Bool) (ctx : Context) (r : Result) (err : Option String)
        → Endpoint up err
        → Whenever Settles request
        → Always window.from (Live window up ctx) (Gives up) (after_request doer ctx url r err)
    unfolding after_request
    after_request-Gives true ctx r none (_, answers) settles =
        Always->>= window.from (Live window true ctx) Settles (Serves true) (Gives true)
          (request ctx) (after_do r) (settles ctx) (answers ctx) (after_do-Since true ctx r)
          (after_do-Gives true ctx r)
    after_request-Gives true ctx r (some err) (h, _) settles = cc
    after_request-Gives false ctx r (some err) h settles =
        Always-pure window.from (Live window false ctx) (Gives false) _ (inl refl)
    after_request-Gives false ctx r none (inr answers) settles =
        Always->>= window.from (Live window false ctx) Settles (Serves false) (Gives false)
          (request ctx) (after_do r) (settles ctx) (answers ctx) (after_do-Since false ctx r)
          (after_do-Gives false ctx r)
    after_request-Gives false ctx r none (inl (message, h)) settles = cc

    pub new_with_doer-Shows :
        (url_error : String → Option String) (up : Bool)
        → Endpoint up (url_error url)
        → Whenever Settles request
        → Shows window up (new_with_doer url_error doer url)
    unfolding new_with_doer
    new_with_doer-Shows url_error up endpoint settles = record {
      run = _;
      has_run = refl;
      gives = λ ctx.
          after_request-Gives up ctx (record zero_result { component_id = url }) (url_error url)
            endpoint settles;
    }
