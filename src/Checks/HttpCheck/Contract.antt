-- ===== src/Checks/HttpCheck/Contract.antt =====
-- checks/httpcheck/httpcheck.go: the contract of Run, from that of the client and of the bodies.
use go_health.Prelude.{
  ℕ, ◌+◌, refl, Option, none, some, String, [], ◌∷◌, All, arith, leb, ltb, ◌&&◌, Bool-cases, inl,
  inr,
}
use go_health.Go.Exec.Prompt.{Ends, Ends-value, Ends-pure, Ends->>=, Anything, Honours}
use go_health.Go.Context.{Context}
use go_health.Core.Check.{Result, zero_result}
use go_health.Checks.Contract.{IsPlain, Promises}
use go_health.Checks.HttpCheck.{
  Done, responded, errored, HttpDoer, judge, after_do, after_request, new_with_doer,
}

-- The body of a response is read to its end soon, and closed soon.
abbrev pub Drains : ℕ → ℕ → Done → Type 0
Drains g d (responded resp) = Ends d g Anything resp.body.drain × Ends d g Anything resp.body.close
Drains g d (errored err) = Unit

judge-IsPlain : (r : Result) (code : ℕ) → IsPlain r → IsPlain (judge r code)
unfolding judge
judge-IsPlain r code plain = elim (Bool-cases (leb 200 code && ltb code 400)) [
  | inl ok ↦ rw ok plain
  | inr bad ↦ rw bad plain
]

after_do-Ends :
    (d g : ℕ) (r : Result) (outcome : Done)
    → IsPlain r
    → Drains g d outcome
    → Ends d (g + g) (All IsPlain) (after_do r outcome)
unfolding after_do
after_do-Ends d g r (responded resp) plain (drains, closes) =
    let judged = judge r resp.status_code in
    Ends->>= d g g Anything (All IsPlain) resp.body.drain _ drains (λ _ _.
      Ends-value d g Anything (All IsPlain) resp.body.close (λ _. judged ∷ []) closes
        (λ _ _. (judge-IsPlain r resp.status_code plain, tt)))
after_do-Ends d g r (errored err) plain _ = Ends-pure d (g + g) (All IsPlain) _ (plain, tt)

after_request-Ends :
    (doer : HttpDoer) (ctx : Context) (url : String) (d g : ℕ) (r : Result) (err : Option String)
    → IsPlain r
    → Ends d g (Drains g d) (doer.do_request (record { ctx = ctx; method = "GET"; url = url }))
    → Ends d (g + (g + g)) (All IsPlain) (after_request doer ctx url r err)
unfolding after_request
after_request-Ends doer ctx url d g r none plain answers =
    Ends->>= d g (g + g) (Drains g d) (All IsPlain) _ (after_do r) answers
      (λ outcome drains. after_do-Ends d g r outcome plain drains)
after_request-Ends doer ctx url d g r (some err) plain answers =
    Ends-pure d (g + (g + g)) (All IsPlain) _ (plain, tt)

pub new_with_doer-Promises :
    (url_error : String → Option String) (doer : HttpDoer) (url : String) (g : ℕ)
    → Honours
        (Drains g)
        g
        (λ ctx. doer.do_request (record { ctx = ctx; method = "GET"; url = url }))
    → Promises (g + (g + g)) (new_with_doer url_error doer url)
unfolding new_with_doer
new_with_doer-Promises url_error doer url g answers = record {
  run = _;
  has_run = refl;
  honours = λ ctx d over.
      after_request-Ends doer ctx url d g (record zero_result { component_id = url })
        (url_error url) refl (answers ctx d over);
  limited = refl;
  soon = λ latest. omega arith;
}
