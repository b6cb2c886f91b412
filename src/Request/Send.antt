-- ===== src/Request/Send.antt =====
-- pkg/util/curl/curl.go: `Request`, with the network as a parameter.
use maistra_test_tool.World.{
  Action, Outcome, returned, panicked, exited, crashed, gets, modify, pure, for_each, ◌>>=◌, ◌>>◌,
}
use maistra_test_tool.Helper.{log, fatal}
use maistra_test_tool.Check.Response.{ResponseCheck, Response, RequestError}
use maistra_test_tool.Request.{
  HttpRequest, HttpClient, RequestOption, Certificates, apply_to_client, apply_to_request,
}
use maistra_test_tool.Prelude.{ℕ, ◌+◌, ◌-◌, Option, none, some, List, [], ◌∷◌}
use maistra_test_tool.Prelude.Int.{pos}
use maistra_test_tool.Text.{Text, lit}
use maistra_test_tool.Text.Format.{sprintf}

-- What the network gives back: the response, or an error, the time that it took, and the body with the
-- errors of reading and of closing it.
pub record Answer : Type 0 where
  pub response : Option Response
  pub error : Option RequestError
  pub took : ℕ
  pub body : Text
  pub body_error : Option Text
  pub close_error : Option Text

-- The error of `http.NewRequest` for a URL, and `client.Do`.
pub record Network : Type 0 where
  pub url_error : Text → Option Text
  pub send : HttpClient → HttpRequest → Answer

abbrev plain_client : HttpClient
plain_client = record { jar = none; transport = none }

abbrev get_request : Text → HttpRequest
get_request url = record { url = url; host = []; headers = []; context = none }

-- `if err != nil { t.Fatalf(msg, err) }`
unfoldable pub fatal_if : ℕ → Text → Option Text → Action Unit
fatal_if h msg none = pure tt
fatal_if h msg (some err) = fatal h (sprintf "%s: %v" (msg ∷ err ∷ []))

-- A deferred function that has nothing to recover: it runs however the body ends, and if it does not return, the call
-- ends as it does.
abbrev replaced : {A : Type 0} → Outcome A → Outcome Unit → Outcome A
replaced o (returned _) = o
replaced o (panicked p) = panicked p
replaced o exited = exited
replaced o (crashed p) = crashed p

abbrev closing : {A : Type 0} → Action Unit → Outcome A → Action A
closing d (returned a) w = let (r, w') = d w in (replaced (returned a) r, w')
closing d (panicked p) w = let (r, w') = d w in (replaced (panicked p) r, w')
closing d exited w = let (r, w') = d w in (replaced exited r, w')
closing d (crashed p) w = (crashed p, w)

unfoldable pub and_close : {A : Type 0} → Action Unit → Action A → Action A
and_close d m w = let (o, w') = m w in closing d o w'

module _ (network : Network) (files : Certificates) (h : ℕ) where
  -- The checks get the response, the body, the error and the time since the start.
  unfoldable pub run_checks : Answer → Text → ℕ → List ResponseCheck → Action Text
  run_checks answer body start checks = do
    now ← gets λ w. w.clock
    for_each checks (λ check. check h answer.response body answer.error (pos (now - start)))
    pure body

  -- What follows `client.Do`.
  unfoldable pub receive : Answer → ℕ → List ResponseCheck → Action Text
  unfolding run_checks fatal_if and_close
  receive answer start checks = elim answer.response [
    | none ↦ run_checks answer [] start checks
    | some _ ↦ and_close (fatal_if h (lit "failed to close response body") answer.close_error) (do
      fatal_if h (lit "failed to read response body") answer.body_error
      run_checks answer answer.body start checks)
  ]

  unfoldable pub log_error : Answer → Action Unit
  log_error answer = elim answer.error [
    | none ↦ pure tt
    | some err ↦ log h (sprintf "failed to get HTTP Response: %v" (err.message ∷ []))
  ]

  -- `Request`; no option is `nil_option`.
  unfoldable pub request : Text → RequestOption → List ResponseCheck → Action Text
  unfolding receive fatal_if log_error apply_to_client apply_to_request
  request url option checks = do
    start ← gets λ w. w.clock
    let (client_error, client) = apply_to_client files option plain_client
    fatal_if h (lit "failed to modify client") client_error
    fatal_if h (lit "failed to create HTTP Request") (network.url_error url)
    let (request_error, req) = apply_to_request option (get_request url)
    fatal_if h (lit "failed to modify request") request_error
    let answer = network.send client req
    modify λ w. record w { clock = w.clock + answer.took }
    log_error answer
    receive answer start checks
