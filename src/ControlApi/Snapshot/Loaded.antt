-- ===== src/ControlApi/Snapshot/Loaded.antt =====
-- What the gateway loads of a snapshot that validatePolicySnapshot accepts.
use bedem_waf.Common.{String, true, false, ◌||◌, ◌≡◌, refl, some, List, [], ◌∷◌, ◌==◌, All, map}
use bedem_waf.Common.Result.{Result, ok, err, >>-eq-ok, is_ok}
use bedem_waf.Common.Sort.{stable_sort}
use bedem_waf.Go.{Go, Url}
use bedem_waf.Config.{AppConfig, CustomRuleConfig, RateLimitConfig}
use bedem_waf.Policy.{App, IpSets, CustomRule, RateLimitRule}
use bedem_waf.Policy.Host.{normalize_host}
use bedem_waf.Policy.Validation.{Parsed}
use bedem_waf.Policy.Rules.{
  bad_status, parse_ip_sets, rules_from, parse_custom_rule, parse_custom_rules, parse_rate_limit,
  parse_rate_limits, parse_origin, parse_prefixes, new_app,
}
use bedem_waf.Policy.Rules.Order.{AreDistinct}
use bedem_waf.PolicyClient.{decoded, GatewayPolicy, origin_url, to_app}
use bedem_waf.ControlApi.{PolicySnapshot}
use bedem_waf.ControlApi.Snapshot.{
  SnapshotChecked, check_mode, check_each, check_cidr, check_set, validate_rule_action,
  validate_custom_rule, validate_rate_limit, validate_decoded,
}
use bedem_waf.ControlApi.Snapshot.Accepted.{check_each-All, IsParsed, IsFresh, rules_from_complete}
use bedem_waf.ControlApi.Snapshot.Deployable.{
  TakesNoSpace, IsNamedSet, parse_ip_sets-ok, custom_snapshot_of, limit_snapshot_of,
  custom_rule-IsParsed, rate_limit-IsParsed,
}

-- The rules of a published policy, as the gateway decodes them: its JSON decoder succeeds on the sets,
-- the rules and the limits, and the control API's decoder reads the same rules in the snapshot, in the
-- fields that it decodes.
pub record Carries (s : PolicySnapshot) (p : GatewayPolicy) : Type 0 where
  pub rules : List CustomRuleConfig
  pub limits : List RateLimitConfig
  pub same_rules : map custom_snapshot_of rules ≡ s.custom_rules
  pub same_limits : map limit_snapshot_of limits ≡ s.rate_limits
  pub ip_sets_text : p.ip_sets ≡ decoded s.ip_sets
  pub rules_text : p.custom_rules ≡ decoded rules
  pub limits_text : p.rate_limits ≡ decoded limits

-- What the gateway asks of a policy and the control API does not.
pub record IsComplete (go : Go) (s : PolicySnapshot) (p : GatewayPolicy) (c : Carries s p)
    : Type 0 where
  pub rule_ids : AreDistinct (map (λ r. r.id) c.rules)
  pub limit_ids : AreDistinct (map (λ r. r.id) c.limits)
  pub rule_statuses : All (λ r. bad_status r.status_code ≡ false) c.rules
  pub limit_statuses : All (λ r. bad_status r.status_code ≡ false) c.limits
  pub set_names : All (IsNamedSet go) s.ip_sets
  pub identified :
      (p.tenant_id == "" || p.app_id == "" || p.policy_id == "" || p.policy_version_id == "")
      ≡ false
  pub located : (origin_url go p.origin == "") ≡ false
  pub origin : Url
  pub origin_parsed : go.parse_url (origin_url go p.origin) ≡ some origin
  pub origin_whole : (origin.scheme == "" || origin.host == "") ≡ false

module _ {V R S : Type 0} (go : Go) (id : V → String) (parse : V → Parsed R) (view : V → S)
    (check : S → SnapshotChecked) (Fits : V → Type 0)
    (each : (v : V) → check (view v) ≡ ok tt → Fits v → IsParsed go id parse v) where
  All-IsParsed :
      (vs : List V)
      → All (λ x. check x ≡ ok tt) (map view vs)
      → All Fits vs
      → All (IsParsed go id parse) vs
  All-IsParsed [] h fits = tt
  All-IsParsed (v ∷ vs) h fits = (each v h.0 fits.0, All-IsParsed vs h.1 fits.1)

  All-IsFresh : (vs : List V) → All (IsFresh go id parse []) vs
  All-IsFresh [] = tt
  All-IsFresh (v ∷ vs) = (refl, All-IsFresh vs)

  -- A list of rules that the control API checked one by one is parsed by the gateway.
  rules_loaded :
      (vs : List V) {xs : List S}
      → map view vs ≡ xs
      → check_each check xs ≡ ok tt
      → All Fits vs
      → AreDistinct (map id vs)
      → (rs : List R) × (rules_from go id parse [] vs ≡ ok rs)
  rules_loaded vs same h fits distinct =
      let checked = check_each-All check (map view vs) (rw (← same) at h) in
      rules_from_complete go id parse [] vs (All-IsParsed vs checked fits) distinct (All-IsFresh vs)

is_ok-value : {E A : Type 0} (m : Result E A) → is_ok m ≡ true → (x : A) × (m ≡ ok x)
is_ok-value (ok x) h = (x, refl)
is_ok-value (err e) h = cc

module _ (go : Go) (strict : TakesNoSpace go) (s : PolicySnapshot) (p : GatewayPolicy)
    (c : Carries s p) (complete : IsComplete go s p c) (valid : validate_decoded go s ≡ ok tt) where
  stages :
      (sets : IpSets) × (rules : List CustomRule) × (limits : List RateLimitRule) × (parse_ip_sets
          go s.ip_sets
        ≡ ok sets)
      × (parse_custom_rules go sets c.rules ≡ ok rules)
      × (parse_rate_limits go sets c.limits ≡ ok limits)
  unfolding validate_decoded parse_custom_rules parse_rate_limits
  stages =
      let (_, h₁) = >>-eq-ok (check_mode s.mode) _ valid in
      let (_, h₂) = >>-eq-ok (check_each (check_cidr go) s.ip_blocks) _ h₁ in
      let (sets_ok, h₃) = >>-eq-ok (check_each (check_set go) s.ip_sets) _ h₂ in
      let (_, h₄) = >>-eq-ok (check_each validate_rule_action s.rules) _ h₃ in
      let (rules_ok, limits_ok) =
        >>-eq-ok (check_each (validate_custom_rule go s.ip_sets) s.custom_rules) _ h₄ in
      let (sets, parsed, names) =
        parse_ip_sets-ok go strict s.ip_sets (check_each-All (check_set go) s.ip_sets sets_ok)
          complete.set_names in
      let (rules, parsed_rules) =
        rules_loaded go (λ r. r.id) (parse_custom_rule go sets) custom_snapshot_of
          (validate_custom_rule go s.ip_sets) (λ r. bad_status r.status_code ≡ false)
          (custom_rule-IsParsed go s.ip_sets sets names) c.rules c.same_rules rules_ok
          complete.rule_statuses complete.rule_ids in
      let (limits, parsed_limits) =
        rules_loaded go (λ r. r.id) (parse_rate_limit go sets) limit_snapshot_of
          (validate_rate_limit go s.ip_sets) (λ r. bad_status r.status_code ≡ false)
          (rate_limit-IsParsed go s.ip_sets sets names) c.limits c.same_limits limits_ok
          complete.limit_statuses complete.limit_ids in
      (
        sets,
        stable_sort (λ r. r.priority) rules,
        stable_sort (λ r. r.priority) limits,
        parsed,
        rw parsed_rules refl,
        rw parsed_limits refl,
      )

  loaded_app :
      (cfg : AppConfig) (sets : IpSets) (rules : List CustomRule) (limits : List RateLimitRule)
      → parse_origin go cfg ≡ ok complete.origin
      → parse_prefixes go cfg.policy.ip_blocklist ≡ ok []
      → parse_prefixes go cfg.policy.ip_allowlist ≡ ok []
      → parse_ip_sets go cfg.policy.ip_sets ≡ ok sets
      → parse_custom_rules go sets cfg.policy.custom_rules ≡ ok rules
      → parse_rate_limits go sets cfg.policy.rate_limits ≡ ok limits
      → (app : App) × (new_app go cfg ≡ ok app)
  unfolding new_app
  loaded_app cfg sets rules limits e₁ e₂ e₃ e₄ e₅ e₆ =
      is_ok-value (new_app go cfg) (rw (e₁, e₂, e₃, e₄, e₅, e₆) refl)

  abbrev config_of : String → AppConfig
  config_of hostname = record {
    id = p.app_id;
    tenant_id = p.tenant_id;
    hostnames = normalize_host go hostname ∷ [];
    origin_url = origin_url go p.origin;
    policy = record {
      mode = p.mode;
      default_action = "allow";
      ip_blocklist = [];
      ip_allowlist = [];
      ip_sets = s.ip_sets;
      custom_rules = c.rules;
      rate_limits = c.limits;
    };
  }

  origin_loaded : (hostname : String) → parse_origin go (config_of hostname) ≡ ok complete.origin
  unfolding parse_origin
  origin_loaded hostname = rw (complete.origin_parsed, complete.origin_whole) refl

  -- A policy snapshot that the control API accepts makes a policy that the gateway can load, if
  -- netip.ParsePrefix takes no space and these hold, which the control API does not test: the gateway's
  -- JSON decoder reads the published sets, rules and limits, and reads in them what the control API's
  -- decoder read in the snapshot (a field that only the gateway decodes, such as a priority, must have
  -- its type); the ids of the custom rules are distinct and so are those of the rate limits, their
  -- status codes are between 0 and 999, no IP set has a blank name, and the policy has its identifiers
  -- and a whole origin.
  pub accepted_snapshot_loads : (hostname : String) → (app : App) × (to_app go p hostname ≡ ok app)
  unfolding to_app parse_prefixes
  accepted_snapshot_loads hostname =
      let (sets, rules, limits, e₁, e₂, e₃) = stages in
      let (app, built) =
        loaded_app (config_of hostname) sets rules limits (origin_loaded hostname) refl refl e₁ e₂
          e₃ in
      is_ok-value (to_app go p hostname) (
        rw
          (
            complete.identified, complete.located, c.ip_sets_text, c.rules_text, c.limits_text,
            built,
          )
          refl)
