-- ===== src/Config.antt =====
-- services/gateway/internal/config/config.go: the policy part of the configuration.
pub mod Defaults
pub mod Loading
use bedem_waf.Common.{String, Bool, List, Option}
use bedem_waf.Common.Int.{ℤ}
use bedem_waf.Go.Maps.{GoMap}

-- `HeaderMatch` and `QueryParamMatch`, and the policy's `HeaderCondition`, `QueryParamCondition`.
pub record NameValue : Type 0 where
  pub name : String
  pub value : String

-- The fields of a condition but `All` and `Any`; the empty text and nil mean "not given".
pub record Operators : Type 0 where
  pub method_equals : String
  pub path_equals : String
  pub path_starts_with : String
  pub host_equals : String
  pub header_contains : Option NameValue
  pub header_equals : Option NameValue
  pub query_param_contains : Option NameValue
  pub client_ip_in_ip_set : String
  pub client_ip_not_in_ip_set : String

-- `config.ConditionConfig` and `policy.Condition`, which have the same fields: `All`, `Any`, the rest.
mutual
  pub data Condition : Type 0 where
    condition : Conditions → Conditions → Operators → Condition

  pub data Conditions : Type 0 where
    nil : Conditions
    cons : Condition → Conditions → Conditions

pub record CustomRuleConfig : Type 0 where
  pub id : String
  pub name : String
  pub priority : ℤ
  pub enabled : Bool
  pub action : String
  pub status_code : ℤ
  pub terminal_allow : Bool
  pub when : Condition

pub record RateLimitConfig : Type 0 where
  pub id : String
  pub name : String
  pub enabled : Bool
  pub priority : ℤ
  pub match_expression : Condition
  pub key_type : String
  pub key_header : String
  pub limit : ℤ
  pub window_seconds : ℤ
  pub action : String
  pub status_code : ℤ
  pub key : String

pub record PolicyConfig : Type 0 where
  pub mode : String
  pub default_action : String
  pub ip_blocklist : List String
  pub ip_allowlist : List String
  pub ip_sets : GoMap (List String)
  pub rate_limits : List RateLimitConfig
  pub custom_rules : List CustomRuleConfig

-- `origin_url` is the field `Origin.URL`.
pub record AppConfig : Type 0 where
  pub id : String
  pub tenant_id : String
  pub hostnames : List String
  pub origin_url : String
  pub policy : PolicyConfig
