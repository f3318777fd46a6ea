-- ===== src/Tests/Samples.antt =====
-- Sample data. The library functions of Go are replaced by small tables for the values that occur.
use bedem_waf.Common.{String, true, false, Option, none, some, [], ◌∷◌, ◌==◌, if◌then◌else◌}
use bedem_waf.Common.Int.{pos}
use bedem_waf.Common.Result.{ok}
use bedem_waf.Go.{Go}
use bedem_waf.Go.Netip.{Addr, ipv4, ipv4_prefix}
use bedem_waf.Decision.{allow_decision, allow, block, block_mode}
use bedem_waf.Config.{
  Operators, Condition, condition, nil, CustomRuleConfig, RateLimitConfig, AppConfig,
}
use bedem_waf.Policy.{App, RateLimitRule, CustomRule}
use bedem_waf.Policy.Store.{found_app}
use bedem_waf.RateLimit.{Request}
use bedem_waf.Audit.{Event}
use bedem_waf.Proxy.{HttpRequest, Gateway, State, Body}

abbrev pub sample_addr : String → Option Addr
sample_addr s =
    if s == "203.0.113.9"
    then some (ipv4 3405803785)
    else if s == "10.0.0.1"
    then some (ipv4 167772161)
    else none

abbrev pub sample_go : Go
sample_go = record {
  unicode_lower = λ c. c;
  unicode_space = λ c. false;
  unicode_letter = λ c. false;
  unicode_digit = λ c. false;
  equal_fold = λ s t. s == t;
  canonical_header_key = λ s. s;
  parse_addr = sample_addr;
  parse_prefix = λ s. if s == "203.0.113.0/24" then some (ipv4_prefix 3405803776 24) else none;
  addr_string = λ a. "203.0.113.9";
  prefix_string = λ p. "203.0.113.0/24";
  parse_url = λ s. some (record { scheme = "http"; host = "origin" });
  parse_query = λ s. ([], true);
  encode_query = λ values. "";
  sha256_hex = λ s. s;
  itoa = λ n. "1";
}

abbrev pub no_operators : Operators
no_operators = record {
  method_equals = "";
  path_equals = "";
  path_starts_with = "";
  host_equals = "";
  header_contains = none;
  header_equals = none;
  query_param_contains = none;
  client_ip_in_ip_set = "";
  client_ip_not_in_ip_set = "";
}

abbrev pub on_admin : Condition
on_admin = condition nil nil (record no_operators { path_starts_with = "/admin" })

abbrev pub no_condition : Condition
no_condition = condition nil nil no_operators

abbrev pub admin_rule_config : CustomRuleConfig
admin_rule_config = record {
  id = "r1";
  name = "admin";
  priority = pos 10;
  enabled = true;
  action = "block";
  status_code = pos 451;
  terminal_allow = false;
  when = on_admin;
}

abbrev pub limit_config : RateLimitConfig
limit_config = record {
  id = "l1";
  name = "per client";
  enabled = true;
  priority = pos 1;
  match_expression = no_condition;
  key_type = "ip";
  key_header = "";
  limit = pos 2;
  window_seconds = pos 60;
  action = "block";
  status_code = pos 429;
  key = "";
}

abbrev pub shop_config : AppConfig
shop_config = record {
  id = "shop";
  tenant_id = "";
  hostnames = "shop.test" ∷ [];
  origin_url = "http://origin";
  policy = record {
    mode = "block";
    default_action = "allow";
    ip_blocklist = [];
    ip_allowlist = [];
    ip_sets = [];
    rate_limits = limit_config ∷ [];
    custom_rules = admin_rule_config ∷ [];
  };
}

abbrev pub admin_rule : CustomRule
admin_rule = record {
  id = "r1";
  name = "admin";
  priority = pos 10;
  enabled = true;
  action = block;
  status_code = pos 451;
  terminal_allow = false;
  when = on_admin;
}

abbrev pub client_limit : RateLimitRule
client_limit = record {
  id = "l1";
  name = "per client";
  enabled = true;
  priority = pos 1;
  match_expression = none;
  key_type = "ip";
  key_header = "";
  limit = pos 2;
  window_seconds = pos 60;
  action = block;
  status_code = pos 429;
}

abbrev pub shop : App
shop = record {
  id = "shop";
  tenant_id = "default";
  policy_id = "";
  policy_version = "";
  hostnames = "shop.test" ∷ [];
  origin = record { scheme = "http"; host = "origin" };
  mode = block_mode;
  default_action = allow;
  ip_blocklist = [];
  ip_allowlist = [];
  ip_sets = [];
  rate_limits = client_limit ∷ [];
  custom_rules = admin_rule ∷ [];
  raw_origin_string = "http://origin";
}

abbrev pub closed_shop : App
closed_shop = record shop { ip_blocklist = ipv4_prefix 3405803776 24 ∷ [] }

abbrev pub client : Addr
client = ipv4 3405803785

abbrev pub limiter_query : Request
limiter_query = record {
  client_ip = "203.0.113.9";
  method = "GET";
  host = "shop.test";
  path = "/";
  headers = [];
  query = [];
}

abbrev pub small_body : Body
small_body = record { bytes = 104 ∷ 105 ∷ []; read_fails = false; close_fails = false }

abbrev pub get_admin : HttpRequest
get_admin = record {
  method = "GET";
  url_path = "/admin";
  raw_query = "";
  host = "shop.test";
  remote_addr = "203.0.113.9:1234";
  headers = [];
  body = some small_body;
  tls = false;
}

-- A gateway with one app behind every host, no limiter and an inspection that finds nothing.
abbrev pub gateway : Gateway (Unit {0}) (Unit {0}) (Unit {0})
gateway = record {
  body_limit = pos 10;
  debug_preview = false;
  preview_bytes = pos 0;
  provider = record { lookup_host = λ s host. (found_app shop, s) };
  limiter = record { check_rule = λ s app r rule. (allow_decision, s) };
  waf = record { inspect_request = λ s r preview context. (ok none, s) };
  trusted_proxies = [];
}

abbrev pub idle : State (Unit {0}) (Unit {0}) (Unit {0})
idle = record { policies = tt; counters = tt; engine = tt }

abbrev pub blank_event : Event
blank_event = record {
  request_id = "id";
  tenant_id = "";
  app_id = "";
  policy_id = "";
  policy_version = "";
  host = "shop.test";
  client_ip = "203.0.113.9";
  country = "ZZ";
  method = "GET";
  path = "/admin";
  query_redacted = "";
  user_agent = "";
  action = "allow";
  mode = "";
  enforced = false;
  would_block = false;
  status = pos 0;
  reason = "";
  matched_rule_id = "";
  matched_rule_name = "";
  rule_group = "";
  tags = [];
  anomaly_score = pos 0;
  limit_info = none;
  origin_status = pos 0;
  body_preview = "";
}
