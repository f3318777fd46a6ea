-- ===== src/RateLimit.antt =====
-- services/gateway/internal/ratelimit/ratelimit.go: the fixed-window limiter and its stores.
-- A store is an interface: one operation on a state of its own. The clock is an argument, in seconds
-- since 1970, which readings before that year do not have. The socket of RedisStore is not modelled.
pub mod Store
pub mod Window
pub mod Windows
use bedem_waf.Common.{
  ℕ, ◌+◌, ◌*◌, ◌/◌, String, Bool, true, false, not, ◌&&◌, Option, none, some, List, [], ◌∷◌, ◌==◌,
  if◌then◌else◌,
}
use bedem_waf.Common.Int.{ℤ, pos, pos_part, leb_ℤ}
use bedem_waf.Common.Result.{Result, ok, err}
use bedem_waf.Go.{Go}
use bedem_waf.Go.Maps.{GoMap, first_value}
use bedem_waf.Go.Netip.{Addr, ipv4_unspecified}
use bedem_waf.Go.Text.{to_lower}
use bedem_waf.Go.Strings.{concat}
use bedem_waf.Decision.{
  Action, allow, count, block, rate_limit, is_block, Decision, RateLimitInfo, allow_decision,
  bare_decision,
}
use bedem_waf.Policy.{App, RateLimitRule, RequestContext}
use bedem_waf.Policy.Matching.{match}

pub record Request : Type 0 where
  pub client_ip : String
  pub method : String
  pub host : String
  pub path : String
  pub headers : GoMap (List String)
  pub query : GoMap (List String)

-- The interface `Store`: IncrementFixedWindow takes key, limit and window, and returns the count and
-- what remains, or an error; a failed call may leave a new state too.
pub record CounterStore (S : Type 0) : Type 0 where
  pub increment : S → String → ℤ → ℤ → Result String (ℤ × ℤ) × S

pub record Limiter (S : Type 0) : Type 0 where
  pub store : CounterStore S
  pub fail_closed : Bool

module _ (go : Go) where
  unfoldable pub parse_addr : String → Addr
  parse_addr value = elim (go.parse_addr value) [ none ↦ ipv4_unspecified | some a ↦ a ]

  -- `Headers.Get` puts the name in canonical form.
  unfoldable pub key_part : Request → RateLimitRule → String
  unfolding to_lower first_value
  key_part req rule =
      if rule.key_type == "host"
      then to_lower go req.host
      else if rule.key_type == "path"
      then req.path
      else if rule.key_type == "header"
      then first_value (go.canonical_header_key rule.key_header) req.headers
      else if rule.key_type == "api_key_placeholder"
      then first_value (go.canonical_header_key "X-API-Key") req.headers
      else req.client_ip

  -- The key "bedemwaf:rl:tenant:app:rule:hash:window".
  unfoldable pub redis_key : App → RateLimitRule → String → ℕ → String
  unfolding concat
  redis_key app rule hash window = concat (
      "bedemwaf:rl:"
      ∷ app.tenant_id
      ∷ ":"
      ∷ app.id
      ∷ ":"
      ∷ rule.id
      ∷ ":"
      ∷ hash
      ∷ ":"
      ∷ go.itoa (pos window)
      ∷ [])

abbrev pub limit_info_of : RateLimitRule → ℤ → ℕ → RateLimitInfo
limit_info_of rule remaining reset_at = record {
  limit = rule.limit;
  remaining = remaining;
  reset_at = reset_at;
  rule_id = rule.id;
  action = rule.action;
}

-- rateLimitDecision
unfoldable pub exceeded_decision : RateLimitRule → ℤ → ℕ → Decision
unfolding concat
exceeded_decision rule remaining reset_at = record {
  action = if is_block rule.action then rate_limit else count;
  reason = "rate_limit";
  matched_rule_id = concat ("rate_limit:" ∷ rule.id ∷ []);
  matched_rule_name = rule.name;
  rule_group = "rate_limit";
  tags = "rate_limit" ∷ [];
  anomaly_score = pos 0;
  status_code = rule.status_code;
  limit_info = some (limit_info_of rule remaining reset_at);
}

-- The decision of a request within the limit.
unfoldable pub within_decision : RateLimitRule → ℤ → ℕ → Decision
within_decision rule remaining reset_at = record (bare_decision allow "" "") {
  matched_rule_name = rule.name;
  rule_group = "rate_limit";
  tags = "rate_limit" ∷ [];
  limit_info = some (limit_info_of rule remaining reset_at);
}

-- What Check makes of the store's answer.
unfoldable pub limit_decision : Bool → RateLimitRule → ℕ → Result String (ℤ × ℤ) → Decision
limit_decision fail_closed rule reset_at (err e) =
    if not fail_closed then allow_decision else exceeded_decision rule (pos 0) reset_at
limit_decision fail_closed rule reset_at (ok (hits, remaining)) =
    if leb_ℤ hits rule.limit
    then within_decision rule remaining reset_at
    else exceeded_decision rule remaining reset_at

module _ (go : Go) where
  abbrev pub context_of : Request → RequestContext
  unfolding parse_addr
  context_of req = record {
    method = req.method;
    path = req.path;
    host = req.host;
    headers = req.headers;
    query = req.query;
    client_ip = parse_addr go req.client_ip;
  }

  -- The rule is on, and its match, if there is one, holds of the request.
  unfoldable pub applies : App → Request → RateLimitRule → Bool
  applies app req rule = rule.enabled && elim rule.match_expression [
    | none ↦ true
    | some c ↦ match go (context_of req) app.ip_sets c
  ]

  -- `now.Unix() / int64(rule.WindowSeconds)`; a parsed rule has a positive window.
  abbrev pub window_of : ℕ → RateLimitRule → ℕ
  window_of now rule = now / pos_part rule.window_seconds

  unfoldable pub counter_key : ℕ → App → Request → RateLimitRule → String
  unfolding redis_key key_part
  counter_key now app req rule =
      redis_key go app rule (go.sha256_hex (key_part go req rule)) (window_of now rule)

  -- FixedWindowLimiter.Check
  unfoldable pub check :
      {S : Type 0} → Limiter S → S → ℕ → App → Request → RateLimitRule → Decision × S
  check l s now app req rule =
      if not (applies app req rule)
      then (allow_decision, s)
      else let reset_at = (window_of now rule + 1) * pos_part rule.window_seconds in
        let (answer, s') =
          l.store.increment s (counter_key now app req rule) rule.limit rule.window_seconds in
        (limit_decision l.fail_closed rule reset_at answer, s')
