-- ===== src/ControlApi/Snapshot/Deployable.antt =====
-- What the gateway's parsers make of the sets and rules that validatePolicySnapshot checks.
use bedem_waf.Common.{
  String, false, not, ◌&&◌, ◌||◌, ◌≡◌, refl, arith, Option, none, some, List, [], ◌∷◌, ◌==◌, All,
  Bool-cases, Option-cases, inl, inr, if◌then◌else◌,
}
use bedem_waf.Common.Int.{pos, leb_ℤ}
use bedem_waf.Common.Result.{ok, refuse->>-eq-ok}
use bedem_waf.Go.{Go}
use bedem_waf.Go.Text.{trim_space}
use bedem_waf.Go.Maps.{GoMap, lookup, has_key}
use bedem_waf.Go.Netip.{Prefix, masked}
use bedem_waf.Config.{Condition, condition, CustomRuleConfig, RateLimitConfig}
use bedem_waf.Policy.{IpSets}
use bedem_waf.Policy.Validation.{has_condition}
use bedem_waf.Policy.Validation.Accepted.{canonical}
use bedem_waf.Policy.Rules.{
  bad_status, known_key_type, parse_prefix, parse_prefixes, parse_ip_sets, parse_custom_rule,
  parse_match, parse_rate_limit, custom_rule_of, rate_limit_of, masked_or,
}
use bedem_waf.ControlApi.{PolicyCustomRuleSnapshot, PolicyRateLimitRuleSnapshot}
use bedem_waf.ControlApi.Names.{validate_cidr}
use bedem_waf.ControlApi.Snapshot.{
  validate_policy_condition, has_policy_condition, validate_custom_rule, validate_rate_limit,
  check_cidr, check_set, limit_id_required, limit_name_required, limit_action_unknown,
  limit_not_positive, key_type_unknown, key_header_required,
}
use bedem_waf.ControlApi.Snapshot.Accepted.{
  check_each-All, given_of_trimmed, HasNamesOf, parses, IsParsed, known_action, limit_action,
}

-- `netip.ParsePrefix` takes no space around a prefix.
abbrev pub TakesNoSpace : Go → Type 0
TakesNoSpace go = (s : String) (p : Prefix) → go.parse_prefix s ≡ some p → trim_space go s ≡ s

abbrev pub IsNamedSet : Go → String × List String → Type 0
IsNamedSet go entry = (trim_space go entry.0 == "") ≡ false

module _ (go : Go) (strict : TakesNoSpace go) where
  check_cidr-parsed :
      (cidr : String) → check_cidr go cidr ≡ ok tt → (p : Prefix) × (parse_prefix go cidr ≡ ok p)
  unfolding check_cidr validate_cidr parse_prefix masked_or
  check_cidr-parsed cidr h = elim (Option-cases (go.parse_prefix cidr)) [
    | inl e ↦ let g = rw e at h in cc
    | inr (p, e) ↦ (masked p, rw (strict cidr p e, e) refl)
  ]

  parse_prefixes-ok :
      (cidrs : List String)
      → All (λ c. check_cidr go c ≡ ok tt) cidrs
      → (ps : List Prefix) × (parse_prefixes go cidrs ≡ ok ps)
  unfolding parse_prefixes
  parse_prefixes-ok [] h = ([], refl)
  parse_prefixes-ok (c ∷ cs) h =
      let (p, e) = check_cidr-parsed c h.0 in
      let (ps, f) = parse_prefixes-ok cs h.1 in (p ∷ ps, rw (e, f) refl)

  pub parse_ip_sets-ok :
      (raw : GoMap (List String))
      → All (λ entry. check_set go entry ≡ ok tt) raw
      → All (IsNamedSet go) raw
      → (sets : IpSets) × (parse_ip_sets go raw ≡ ok sets) × HasNamesOf raw sets
  unfolding parse_ip_sets check_set has_key lookup
  parse_ip_sets-ok [] h named = ([], refl, λ n. refl)
  parse_ip_sets-ok ((name, cidrs) ∷ raw) h named =
      let (ps, e) = parse_prefixes-ok cidrs (check_each-All (check_cidr go) cidrs h.0) in
      let (sets, f, same) = parse_ip_sets-ok raw h.1 named.1 in
      (
        (name, ps) ∷ sets,
        rw (named.0, e, f) refl,
        λ n. elim (Bool-cases (name == n)) [ inl g ↦ rw g refl | inr g ↦ rw g (same n) ],
      )

-- What a decoder of the control API reads of a rule that a decoder of the gateway reads whole.
abbrev pub custom_snapshot_of : CustomRuleConfig → PolicyCustomRuleSnapshot
custom_snapshot_of r = record { id = r.id; name = r.name; action = r.action; when = r.when }

abbrev pub limit_snapshot_of : RateLimitConfig → PolicyRateLimitRuleSnapshot
limit_snapshot_of r = record {
  id = r.id;
  name = r.name;
  match_condition = r.match_expression;
  key_type = r.key_type;
  key_header = r.key_header;
  limit = r.limit;
  window_seconds = r.window_seconds;
  action = r.action;
}

module _ (go : Go) (raw : GoMap (List String)) (sets : IpSets) (names : HasNamesOf raw sets) where
  pub custom_rule-IsParsed :
      (r : CustomRuleConfig)
      → validate_custom_rule go raw (custom_snapshot_of r) ≡ ok tt
      → bad_status r.status_code ≡ false
      → IsParsed go (λ v. v.id) (parse_custom_rule go sets) r
  unfolding validate_custom_rule parse_custom_rule
  custom_rule-IsParsed r h status =
      let (filled, h₁) = refuse->>-eq-ok _ _ _ h in
      let (named, h₂) = refuse->>-eq-ok _ _ _ h₁ in
      let (known, h₃) = refuse->>-eq-ok _ _ _ h₂ in
      let given = given_of_trimmed go r.name named in
      let acts = known_action r.action known in
      let parsed = parses go raw sets names r.when h₃ in
      (filled, (custom_rule_of r (canonical go r.when), rw (given, acts, status, parsed) refl))

  has_condition_eq : (c : Condition) → has_policy_condition c ≡ has_condition c
  unfolding has_policy_condition has_condition
  has_condition_eq (condition all any o) = refl

  match_parsed :
      (c : Condition)
      → (if has_policy_condition c then validate_policy_condition go raw c else ok tt) ≡ ok tt
      → (m : Option Condition) × (parse_match go sets c ≡ ok m)
  unfolding parse_match
  match_parsed c h = elim (Bool-cases (has_condition c)) [
    | inl e ↦
        let accepted = rw (has_condition_eq c, e) at h in
        (some (canonical go c), rw (e, parses go raw sets names c accepted) refl)
    | inr e ↦ (none, rw e refl)
  ]

  pub rate_limit-IsParsed :
      (r : RateLimitConfig)
      → validate_rate_limit go raw (limit_snapshot_of r) ≡ ok tt
      → bad_status r.status_code ≡ false
      → IsParsed go (λ v. v.id) (parse_rate_limit go sets) r
  unfolding validate_rate_limit parse_rate_limit
  rate_limit-IsParsed r h status =
      let (filled, h₁) = refuse->>-eq-ok (trim_space go r.id == "") limit_id_required _ h in
      let (named, h₂) = refuse->>-eq-ok (trim_space go r.name == "") limit_name_required _ h₁ in
      let (known, h₃) =
        refuse->>-eq-ok (not (r.action == "count" || r.action == "block")) limit_action_unknown _
          h₂ in
      let (positive, h₄) =
        refuse->>-eq-ok (leb_ℤ r.limit (pos 0) || leb_ℤ r.window_seconds (pos 0)) limit_not_positive
          _ h₃ in
      let (keyed, h₅) = refuse->>-eq-ok (not (known_key_type r.key_type)) key_type_unknown _ h₄ in
      let (header, h₆) =
        refuse->>-eq-ok (r.key_type == "header" && trim_space go r.key_header == "")
          key_header_required _ h₅ in
      let given = given_of_trimmed go r.name named in
      let acts = limit_action r.action known in
      let by_header : r.key_type == "header" && r.key_header == "" ≡ false =
        ground (arith, header, given_of_trimmed go r.key_header) in
      let (m, parsed) = match_parsed r.match_expression h₆ in
      let least : leb_ℤ r.limit (pos 0) ≡ false = ground (arith, positive) in
      let width : leb_ℤ r.window_seconds (pos 0) ≡ false = ground (arith, positive) in
      (
        filled,
        (
          rate_limit_of go r m,
          rw (given, least, width, acts, keyed, by_header, status, parsed) refl,
        ),
      )
