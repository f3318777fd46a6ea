-- ===== src/Policy/Rules.antt =====
-- The parsing of prefixes, IP sets, custom rules and rate limits, and newApp, in store.go.
pub mod Order
use bedem_waf.Common.{
  String, Bool, true, false, not, ◌&&◌, ◌||◌, Option, none, some, List, [], ◌∷◌, ◌==◌, any,
  if◌then◌else◌,
}
use bedem_waf.Common.Int.{ℤ, pos, ltb_ℤ, leb_ℤ}
use bedem_waf.Common.Sort.{stable_sort}
use bedem_waf.Common.Result.{Result, ok, err, ◌>>=◌, ◌>>◌, refuse, map_err}
use bedem_waf.Go.{Go, Url}
use bedem_waf.Go.Maps.{GoMap}
use bedem_waf.Go.Text.{trim_space}
use bedem_waf.Go.Netip.{Prefix, masked}
use bedem_waf.Config.{Condition, CustomRuleConfig, RateLimitConfig, PolicyConfig, AppConfig}
use bedem_waf.Decision.{Action, is_allow, is_count, is_block, action_of, mode_of}
use bedem_waf.Policy.{RateLimitRule, CustomRule, IpSets, App}
use bedem_waf.Policy.Matching.{canonical_header_name}
use bedem_waf.Policy.Validation.{
  PolicyError, bad_prefix, ip_set_name_empty, rule_id_required, duplicate_rule_id,
  rule_name_required, key_header_required, unsupported_action, unsupported_key_type,
  limit_not_positive, window_not_positive, invalid_status_code, bad_origin, origin_incomplete,
  within, Parsed, has_condition, parse_condition,
}

-- `_, ok := seen[id]`; the set of the ids seen so far is a list.
abbrev pub is_member : String → List String → Bool
is_member id seen = any (λ s. s == id) seen

-- `status < 0 || status > 999`
abbrev pub bad_status : ℤ → Bool
bad_status status = ltb_ℤ status (pos 0) || ltb_ℤ (pos 999) status

abbrev pub known_key_type : String → Bool
known_key_type k =
    k == "ip" || k == "host" || k == "path" || k == "header" || k == "api_key_placeholder"

unfoldable pub masked_or : String → Option Prefix → Parsed Prefix
unfolding masked
masked_or value none = err (bad_prefix value)
masked_or value (some p) = ok (masked p)

module _ (go : Go) where
  unfoldable pub parse_prefix : String → Parsed Prefix
  unfolding trim_space masked_or
  parse_prefix value = masked_or value (go.parse_prefix (trim_space go value))

  unfoldable pub parse_prefixes : List String → Parsed (List Prefix)
  unfolding parse_prefix
  parse_prefixes [] = ok []
  parse_prefixes (v ∷ vs) = parse_prefix v >>= λ p. parse_prefixes vs >>= λ ps. ok (p ∷ ps)

  -- The order in which Go visits the map decides at most which error is returned.
  unfoldable pub parse_ip_sets : GoMap (List String) → Parsed IpSets
  unfolding parse_prefixes
  parse_ip_sets [] = ok []
  parse_ip_sets ((name, cidrs) ∷ sets) =
      refuse (trim_space go name == "") ip_set_name_empty
      >> (map_err (within name) (parse_prefixes cidrs) >>= λ ps.
          parse_ip_sets sets >>= λ rest. ok ((name, ps) ∷ rest))

-- `CustomRule{…}` at the end of a round.
abbrev pub custom_rule_of : CustomRuleConfig → Condition → CustomRule
custom_rule_of v when = record {
  id = v.id;
  name = v.name;
  priority = v.priority;
  enabled = v.enabled;
  action = action_of v.action;
  status_code = v.status_code;
  terminal_allow = v.terminal_allow;
  when = when;
}

-- The loop that parseCustomRules and parseRateLimitRules share, with the ids seen so far: an id that
-- is blank or was seen ends it; `parse` is the rest of the round.
module _ (go : Go) {V R : Type 0} (id : V → String) (parse : V → Parsed R) where
  unfoldable pub rules_from : List String → List V → Parsed (List R)
  unfolding trim_space
  rules_from seen [] = ok []
  rules_from seen (v ∷ vs) =
      refuse (trim_space go (id v) == "") rule_id_required
      >> (refuse (is_member (id v) seen) (duplicate_rule_id (id v))
          >> (parse v >>= λ r. rules_from (id v ∷ seen) vs >>= λ rs. ok (r ∷ rs)))

-- `RateLimitRule{…}` at the end of a round.
abbrev pub rate_limit_of : Go → RateLimitConfig → Option Condition → RateLimitRule
rate_limit_of go v match = record {
  id = v.id;
  name = v.name;
  enabled = v.enabled;
  priority = v.priority;
  match_expression = match;
  key_type = v.key_type;
  key_header = canonical_header_name go v.key_header;
  limit = v.limit;
  window_seconds = v.window_seconds;
  action = action_of v.action;
  status_code = v.status_code;
}

module _ (go : Go) (ip_sets : IpSets) where
  -- One round of the loop of parseCustomRules, behind the test for a repeated id.
  unfoldable pub parse_custom_rule : CustomRuleConfig → Parsed CustomRule
  unfolding action_of parse_condition
  parse_custom_rule v = do
    refuse (v.name == "") (rule_name_required v.id)
    let action = action_of v.action
    refuse (not (is_allow action || is_count action || is_block action))
        (unsupported_action v.id v.action)
    refuse (bad_status v.status_code) (invalid_status_code v.id v.status_code)
    when ← map_err (within v.id) (parse_condition go ip_sets v.when)
    ok (custom_rule_of v when)

  unfoldable pub parse_custom_rules : List CustomRuleConfig → Parsed (List CustomRule)
  unfolding rules_from parse_custom_rule stable_sort
  parse_custom_rules values = do
    rules ← rules_from go (λ v. v.id) parse_custom_rule [] values
    ok (stable_sort (λ r. r.priority) rules)

  -- The `match` of a rate limit is optional.
  unfoldable pub parse_match : Condition → Parsed (Option Condition)
  unfolding has_condition parse_condition
  parse_match c =
      if has_condition c then (parse_condition go ip_sets c >>= λ d. ok (some d)) else ok none

  -- One round of the loop of parseRateLimitRules, behind the test for a repeated id.
  unfoldable pub parse_rate_limit : RateLimitConfig → Parsed RateLimitRule
  unfolding action_of has_condition parse_condition parse_match canonical_header_name
  parse_rate_limit v = do
    refuse (v.name == "") (rule_name_required v.id)
    refuse (leb_ℤ v.limit (pos 0)) (limit_not_positive v.id)
    refuse (leb_ℤ v.window_seconds (pos 0)) (window_not_positive v.id)
    let action = action_of v.action
    refuse (not (is_count action || is_block action)) (unsupported_action v.id v.action)
    refuse (not (known_key_type v.key_type)) (unsupported_key_type v.id v.key_type)
    refuse (v.key_type == "header" && v.key_header == "") (key_header_required v.id)
    refuse (bad_status v.status_code) (invalid_status_code v.id v.status_code)
    match ← map_err (within v.id) (parse_match v.match_expression)
    ok (rate_limit_of go v match)

  unfoldable pub parse_rate_limits : List RateLimitConfig → Parsed (List RateLimitRule)
  unfolding rules_from parse_rate_limit stable_sort
  parse_rate_limits values = do
    rules ← rules_from go (λ v. v.id) parse_rate_limit [] values
    ok (stable_sort (λ r. r.priority) rules)

abbrev pub origin_of : String → Option Url → Parsed Url
origin_of id none = err (bad_origin id)
origin_of id (some u) = if u.scheme == "" || u.host == "" then err (origin_incomplete id) else ok u

module _ (go : Go) where
  unfoldable pub parse_origin : AppConfig → Parsed Url
  parse_origin cfg = origin_of cfg.id (go.parse_url cfg.origin_url)

  -- newApp
  unfoldable pub new_app : AppConfig → Parsed App
  unfolding parse_origin parse_prefixes parse_ip_sets parse_custom_rules parse_rate_limits action_of
      mode_of
  new_app cfg = do
    origin ← parse_origin cfg
    blocklist ← map_err (within cfg.id) (parse_prefixes go cfg.policy.ip_blocklist)
    allowlist ← map_err (within cfg.id) (parse_prefixes go cfg.policy.ip_allowlist)
    ip_sets ← map_err (within cfg.id) (parse_ip_sets go cfg.policy.ip_sets)
    custom_rules ← map_err (within cfg.id) (parse_custom_rules go ip_sets cfg.policy.custom_rules)
    rate_limits ← map_err (within cfg.id) (parse_rate_limits go ip_sets cfg.policy.rate_limits)
    ok (record {
      id = cfg.id;
      tenant_id = if cfg.tenant_id == "" then "default" else cfg.tenant_id;
      policy_id = "";
      policy_version = "";
      hostnames = cfg.hostnames;
      origin = origin;
      mode = mode_of cfg.policy.mode;
      default_action = action_of cfg.policy.default_action;
      ip_blocklist = blocklist;
      ip_allowlist = allowlist;
      ip_sets = ip_sets;
      rate_limits = rate_limits;
      custom_rules = custom_rules;
      raw_origin_string = cfg.origin_url;
    })
