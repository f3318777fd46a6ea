-- ===== src/Tests/Gateway.antt =====
-- Examples of the gateway's request handling.
use bedem_waf.Common.{
  ℕ, suc, ◌≡◌, ◌≢◌, refl, true, false, none, some, [], ◌∷◌, inl, inr, arith, ltb, if◌then◌else◌,
}
use bedem_waf.Common.Int.{pos, ◌+ℤ◌}
use bedem_waf.Common.Result.{ok, err}
use bedem_waf.Go.Netip.{prefix_contains}
use bedem_waf.Decision.{is_allow}
use bedem_waf.Policy.Store.{found_app}
use bedem_waf.Policy.Matching.{ip_in_set}
use bedem_waf.Policy.Evaluation.{evaluate_ip, evaluate_custom_rules, first_blocked}
use bedem_waf.Policy.Evaluation.Addresses.{IsTurnedAway}
use bedem_waf.Proxy.{Transport, HttpRequest}
use bedem_waf.Proxy.Reading.{prepared, prepare_request_body, read_body, with_data}
use bedem_waf.Proxy.Reading.Exact.{replayed, prepare_request_body_exact}
use bedem_waf.Proxy.Decide.{decide, evaluate_rate_limits, limiter_request, rule_context}
use bedem_waf.Proxy.Decide.Choice.{ruling}
use bedem_waf.Proxy.Decide.Verdict.{decide-eq-ruling, decide_refused_address}
use bedem_waf.Proxy.Serve.{error_response, base_event, serve_app, serve_http}
use bedem_waf.Proxy.Serve.Outcome.{Shown, IsAnswered, serve_app_cases}
use bedem_waf.Proxy.Serve.Logging.{
  is_answered_here, Leaves, serve_http-IsLogged, serve_app_turned_away,
}
use bedem_waf.Go.{Go}
use bedem_waf.Proxy.Serve.Secrets.{base_event_same}
use bedem_waf.Audit.Redaction.{is_sensitive_query_name}
use bedem_waf.Audit.Redaction.Secrets.{IsSameButSecrets}
use bedem_waf.Tests.Samples.{
  sample_go, shop, closed_shop, client, small_body, get_admin, gateway, idle, blank_event,
}

abbrev origin_ok : Transport ℕ
origin_ok = λ n url r. (some (pos 200), suc n)

serve_app_cases_example :
    IsAnswered sample_go gateway origin_ok 0 "id" idle shop get_admin client "shop.test"
      (serve_app sample_go gateway origin_ok 0 "id" idle shop get_admin client "shop.test"
        blank_event)
      (prepare_request_body (pos 10) (some small_body))
serve_app_cases_example =
    serve_app_cases sample_go gateway origin_ok 0 "id" idle shop get_admin client "shop.test"
      blank_event

prepared-small :
    prepare_request_body (pos 10) (some small_body)
    ≡ ok (prepared (104 ∷ 105 ∷ []) false (some small_body))
unfolding prepare_request_body read_body with_data ◌+ℤ◌
prepared-small = refl

turned_away : IsTurnedAway sample_go client closed_shop
unfolding ip_in_set
turned_away = inl refl

serve_app_turned_away_example :
    ((serve_app sample_go gateway origin_ok 0 "id" idle closed_shop get_admin client "shop.test"
        blank_event).response
      ≡ error_response (pos 403) "id" "request blocked")
    × ((serve_app sample_go gateway origin_ok 0 "id" idle closed_shop get_admin client "shop.test"
          blank_event).state
        ≡ idle)
    × ((serve_app sample_go gateway origin_ok 0 "id" idle closed_shop get_admin client "shop.test"
          blank_event).origins
        ≡ 0)
    × Shown
        (serve_app sample_go gateway origin_ok 0 "id" idle closed_shop get_admin client "shop.test"
          blank_event).event
        (λ seen. (seen.enforced ≡ true) × (seen.action ≡ "block") × (seen.status ≡ pos 403))
serve_app_turned_away_example =
    serve_app_turned_away sample_go gateway origin_ok 0 "id" idle closed_shop get_admin client
      "shop.test" blank_event (prepared (104 ∷ 105 ∷ []) false (some small_body)) prepared-small
      refl turned_away

abbrev lookup_has_app : (found_app shop).found ≡ true → (found_app shop).app ≢ none
lookup_has_app = λ _ e. cc

serve_http-IsLogged_example :
    Leaves sample_go gateway origin_ok 0 "id"
      (is_answered_here sample_go gateway origin_ok 0 "id" get_admin)
      idle
      (serve_http sample_go gateway origin_ok 0 "id" idle get_admin)
serve_http-IsLogged_example =
    serve_http-IsLogged sample_go gateway origin_ok 0 "id" idle get_admin lookup_has_app

decide-eq-ruling_example :
    (decide sample_go gateway.limiter gateway.waf tt tt "id" shop get_admin [] false client
      "shop.test").0
    ≡ ruling shop
        (evaluate_ip sample_go shop client)
        (evaluate_rate_limits gateway.limiter tt shop
          (limiter_request sample_go get_admin client "shop.test")
          shop.rate_limits).0
        (evaluate_custom_rules sample_go shop (rule_context sample_go get_admin client "shop.test"))
        false
        (ok none)
decide-eq-ruling_example =
    decide-eq-ruling sample_go gateway.limiter gateway.waf tt tt "id" shop get_admin [] false client
      "shop.test"

refused : is_allow (evaluate_ip sample_go closed_shop client).action ≡ false
unfolding evaluate_ip first_blocked prefix_contains
refused = refl

decide_refused_address_example :
    decide sample_go gateway.limiter gateway.waf tt tt "id" closed_shop get_admin [] false client
      "shop.test"
    ≡ (ok (evaluate_ip sample_go closed_shop client), (tt, tt))
decide_refused_address_example =
    decide_refused_address sample_go gateway.limiter gateway.waf tt tt "id" closed_shop get_admin []
      false client "shop.test" refused

prepare_request_body_exact_example : prepare_request_body (pos 1) (some small_body) ≡ (
    if ltb 1 2
    then ok (prepared (104 ∷ []) true (some small_body))
    else if false
    then err "read failed"
    else if false
    then err "close failed"
    else ok (prepared (104 ∷ 105 ∷ []) false (some (replayed small_body))))
prepare_request_body_exact_example =
    prepare_request_body_exact 1 small_body (omega arith) (omega arith)

-- Every query is one token.
abbrev one_token : Go
one_token = record sample_go { parse_query = λ s. (("Token", s ∷ []) ∷ [], true) }

abbrev with_token : HttpRequest
with_token = record get_admin { raw_query = "Token=abc" }

token-IsSecret : IsSameButSecrets one_token "Token=abc" "Token=xyz"
unfolding is_sensitive_query_name
token-IsSecret = (λ e. cc, λ e. cc, inr (refl, refl, (refl, inl refl, tt)))

base_event_same_example :
    base_event one_token "id" client "shop.test" with_token
    ≡ base_event one_token "id" client "shop.test" (record with_token { raw_query = "Token=xyz" })
base_event_same_example =
    base_event_same one_token "id" client "shop.test" with_token "Token=xyz" token-IsSecret
