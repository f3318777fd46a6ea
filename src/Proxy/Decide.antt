-- ===== src/Proxy/Decide.antt =====
-- The decision that ServeHTTP, in gateway.go, makes of a request for an app whose body was prepared:
-- from EvaluateIP to the decision that is enforced. Each stage is a function of the progress so far.
pub mod Choice
pub mod Ending
pub mod Verdict
use bedem_waf.Common.{
  ℕ, String, Bool, true, false, not, ◌&&◌, ◌||◌, Option, none, some, List, [], ◌∷◌, ◌==◌,
  if◌then◌else◌,
}
use bedem_waf.Common.Result.{Result, ok, err}
use bedem_waf.Go.{Go}
use bedem_waf.Go.Netip.{Addr}
use bedem_waf.Decision.{
  is_allow, is_count, is_block, is_challenge, is_rate_limit, Decision, allow_decision,
  block_decision,
}
use bedem_waf.Policy.{App, RateLimitRule, RequestContext}
use bedem_waf.Policy.Evaluation.{evaluate_ip, evaluate_custom_rules}
use bedem_waf.RateLimit.{Request}
use bedem_waf.Proxy.{HttpRequest, PolicyContext, Engine, Checker}

-- `final` and `observedCount`.
pub record Progress : Type 0 where
  pub final : Decision
  pub observed : Option Decision

abbrev pub progress : Decision → Option Decision → Progress
progress d o = record { final = d; observed = o }

-- rememberCount
abbrev pub remember : Option Decision → Decision → Option Decision
remember (some d) got = some d
remember none got = if is_count got.action then some got else none

-- `d.Action == ActionRateLimit || d.Action == ActionBlock || d.Action == ActionChallenge`
abbrev pub stops : Decision → Bool
stops d = is_rate_limit d.action || is_block d.action || is_challenge d.action

abbrev pub is_allowed : Progress → Bool
is_allowed p = is_allow p.final.action

-- The loop of evaluateRateLimits.
unfoldable pub evaluate_rate_limits :
    {L : Type 0} → Checker L → L → App → Request → List RateLimitRule → Decision × L
evaluate_rate_limits checker l app req [] = (allow_decision, l)
evaluate_rate_limits checker l app req (rule ∷ rules) =
    let (got, l') = checker.check_rule l app req rule in
    let rest = evaluate_rate_limits checker l' app req rules in
    if not (is_allow got.action) then (got, l') else rest

unfoldable pub after_limits : Progress → Decision → Progress
after_limits p d =
    if stops d then record p { final = d } else record p { observed = remember p.observed d }

unfoldable pub after_body : Bool → Progress → Progress
after_body exceeded p =
    if is_allowed p && exceeded
    then record p { final = block_decision "request_body_limit_exceeded" "waf:request_body_limit" }
    else p

unfoldable pub after_custom : Decision → Progress → Progress
after_custom d p =
    if not (is_allowed p)
    then p
    else if is_block d.action || d.reason == "custom_rule_allow"
    then record p { final = d }
    else if is_count d.action
    then record p { observed = remember p.observed d }
    else p

-- `terminalAllow`, before the inspection
abbrev pub is_terminal_allow : Progress → Bool
is_terminal_allow p = is_allowed p && p.final.reason == "custom_rule_allow"

unfoldable pub after_waf : Option Decision → Progress → Progress
after_waf none p = p
after_waf (some d) p =
    if stops d then record p { final = d } else record p { observed = remember p.observed d }

-- The two tests behind the inspection. A decision of the inspection sets terminalAllow to false, and
-- is not an allow.
unfoldable pub after_default : App → Bool → Progress → Progress
after_default app terminal p =
    if is_allowed p && (not terminal && is_block app.default_action)
    then record p { final = block_decision "default_action" "default_action" }
    else p

unfoldable pub conclude : Progress → Decision
conclude p = elim p.observed [ none ↦ p.final | some d ↦ if is_allowed p then d else p.final ]

-- The inspection and what follows it, from an answer of the engine.
unfoldable pub answered : App → Progress → Result String (Option Decision) → Result String Decision
answered app p (err e) = err e
answered app p (ok d) = ok (conclude (after_default app (is_terminal_allow p) (after_waf d p)))

module _ (go : Go) where
  abbrev pub limiter_request : HttpRequest → Addr → String → Request
  limiter_request r ip host = record {
    client_ip = go.addr_string ip;
    method = r.method;
    host = host;
    path = r.url_path;
    headers = r.headers;
    query = (go.parse_query r.raw_query).0;
  }

  abbrev pub rule_context : HttpRequest → Addr → String → RequestContext
  rule_context r ip host = record {
    method = r.method;
    path = r.url_path;
    host = host;
    headers = r.headers;
    query = (go.parse_query r.raw_query).0;
    client_ip = ip;
  }

  abbrev pub inspection_context : String → App → Addr → String → PolicyContext
  inspection_context id app ip host = record {
    request_id = id;
    app_id = app.id;
    host = host;
    client_ip = go.addr_string ip;
    mode = app.mode;
  }

  -- The address and the rate limits; the limits are not asked behind a refused address.
  unfoldable pub limits_stage :
      {L : Type 0} → Checker L → L → App → HttpRequest → Addr → String → Progress × L
  limits_stage checker l app r ip host =
      let start = progress (evaluate_ip go app ip) none in
      let (d, l') =
        evaluate_rate_limits checker l app (limiter_request r ip host) app.rate_limits in
      if is_allowed start then (after_limits start d, l') else (start, l)

  -- The body limit and the custom rules.
  unfoldable pub rules_stage : App → HttpRequest → Addr → String → Bool → Progress → Progress
  rules_stage app r ip host exceeded p =
      after_custom (evaluate_custom_rules go app (rule_context r ip host)) (after_body exceeded p)

  unfoldable pub waf_stage :
      {W : Type 0}
      → Engine W
      → W
      → String
      → App
      → HttpRequest
      → List ℕ
      → Addr
      → String
      → Progress
      → Result String Decision × W
  waf_stage engine w id app r preview ip host p =
      let (answer, w') = engine.inspect_request w r preview (inspection_context id app ip host) in
      if is_allowed p
      then (answered app p answer, w')
      else (ok (conclude (after_default app false p)), w)

  -- The decision, or the error of the inspection, and the states of the limiter and of the engine.
  unfoldable pub decide :
      {L W : Type 0}
      → Checker L
      → Engine W
      → L
      → W
      → String
      → App
      → HttpRequest
      → List ℕ
      → Bool
      → Addr
      → String
      → Result String Decision × (L × W)
  decide checker engine l w id app r preview exceeded ip host =
      let (p, l') = limits_stage checker l app r ip host in
      let (d, w') =
        waf_stage engine w id app r preview ip host (rules_stage app r ip host exceeded p) in
      (d, (l', w'))
