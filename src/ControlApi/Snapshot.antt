-- ===== src/ControlApi/Snapshot.antt =====
-- validatePolicySnapshot, validatePolicyCondition and hasPolicyCondition, of
-- services/control-api/internal/httpapi/server.go.
pub mod Accepted
pub mod Deployable
pub mod Loaded
use bedem_waf.Common.{
  ℕ, String, Bool, true, false, not, ◌&&◌, ◌||◌, Option, none, some, List, [], ◌∷◌, ◌==◌, eqb,
  is_some, if◌then◌else◌,
}
use bedem_waf.Common.Int.{pos, leb_ℤ}
use bedem_waf.Common.Result.{Result, ok, err, ◌>>=◌, ◌>>◌, refuse}
use bedem_waf.Go.{Go}
use bedem_waf.Go.Text.{trim_space}
use bedem_waf.Go.Maps.{GoMap, lookup, has_key}
use bedem_waf.Config.{NameValue, Operators, Condition, condition, Conditions, nil, cons}
use bedem_waf.Policy.Matching.{is_given, is_cons, on_some}
use bedem_waf.Policy.Validation.{count_true, given}
use bedem_waf.Policy.Rules.{known_key_type}
use bedem_waf.ControlApi.{
  Parsers, PolicyCustomRuleSnapshot, PolicyRateLimitRuleSnapshot, PolicySnapshot,
}
use bedem_waf.ControlApi.Names.{
  NameError, Checked, validate_json, validate_mode, validate_action, validate_cidr,
}

pub data SnapshotError : Type 0 where
  bad_text : NameError → SnapshotError
  snapshot_malformed : SnapshotError
  custom_id_required custom_name_required custom_action_unknown : SnapshotError
  limit_id_required limit_name_required limit_action_unknown : SnapshotError
  limit_not_positive key_type_unknown key_header_required : SnapshotError
  operator_count : ℕ → SnapshotError
  header_contains_blank header_equals_blank query_parameter_blank : SnapshotError
  unknown_ip_set : String → SnapshotError

abbrev pub SnapshotChecked : Type 0
SnapshotChecked = Result SnapshotError (Unit {0})

-- `return err` of a check in validation.go
abbrev pub from_checked : Checked → SnapshotChecked
from_checked (ok x) = ok x
from_checked (err e) = err (bad_text e)

-- A loop that returns the first error.
module _ {A : Type 0} (check : A → SnapshotChecked) where
  unfoldable pub check_each : List A → SnapshotChecked
  check_each [] = ok tt
  check_each (x ∷ xs) = check x >> check_each xs

unfoldable pub has_policy_condition : Condition → Bool
has_policy_condition (condition all any o) =
    is_cons all
    || is_cons any
    || is_given o.method_equals
    || is_given o.path_equals
    || is_given o.path_starts_with
    || is_given o.host_equals
    || is_some o.header_contains
    || is_some o.header_equals
    || is_some o.query_param_contains
    || is_given o.client_ip_in_ip_set
    || is_given o.client_ip_not_in_ip_set

module _ (go : Go) (ip_sets : GoMap (List String)) where
  -- A pair with a blank name or no value.
  unfoldable pub is_blank_pair : NameValue → Bool
  unfolding trim_space
  is_blank_pair h = trim_space go h.name == "" || h.value == ""

  -- A set that is named and that the snapshot does not have.
  unfoldable pub lacks_set : String → Bool
  unfolding has_key
  lacks_set name = is_given name && not (has_key name ip_sets)

  -- The checks behind the loops over All and Any.
  unfoldable pub validate_operators : Operators → SnapshotChecked
  unfolding is_blank_pair lacks_set
  validate_operators o = do
    refuse (on_some is_blank_pair o.header_contains) header_contains_blank
    refuse (on_some is_blank_pair o.header_equals) header_equals_blank
    refuse (on_some is_blank_pair o.query_param_contains) query_parameter_blank
    refuse (lacks_set o.client_ip_in_ip_set) (unknown_ip_set o.client_ip_in_ip_set)
    refuse (lacks_set o.client_ip_not_in_ip_set) (unknown_ip_set o.client_ip_not_in_ip_set)

  unfoldable mutual
    unfolding count_true validate_operators

    pub validate_policy_condition : Condition → SnapshotChecked
    validate_policy_condition (condition all any o) =
        refuse (not (eqb (count_true (given all any o)) 1))
          (operator_count (count_true (given all any o)))
        >> (validate_children all >> (validate_children any >> validate_operators o))

    pub validate_children : Conditions → SnapshotChecked
    validate_children nil = ok tt
    validate_children (cons c cs) = validate_policy_condition c >> validate_children cs

  unfoldable pub validate_custom_rule : PolicyCustomRuleSnapshot → SnapshotChecked
  unfolding trim_space validate_policy_condition
  validate_custom_rule rule = do
    refuse (trim_space go rule.id == "") custom_id_required
    refuse (trim_space go rule.name == "") custom_name_required
    refuse (not (rule.action == "allow" || rule.action == "count" || rule.action == "block"))
        custom_action_unknown
    validate_policy_condition rule.when

  unfoldable pub validate_rate_limit : PolicyRateLimitRuleSnapshot → SnapshotChecked
  unfolding trim_space has_policy_condition validate_policy_condition
  validate_rate_limit rule = do
    refuse (trim_space go rule.id == "") limit_id_required
    refuse (trim_space go rule.name == "") limit_name_required
    refuse (not (rule.action == "count" || rule.action == "block")) limit_action_unknown
    refuse (leb_ℤ rule.limit (pos 0) || leb_ℤ rule.window_seconds (pos 0)) limit_not_positive
    refuse (not (known_key_type rule.key_type)) key_type_unknown
    refuse (rule.key_type == "header" && trim_space go rule.key_header == "") key_header_required
    if has_policy_condition rule.match_condition
        then validate_policy_condition rule.match_condition
        else ok tt

-- `rule["action"]`, the empty text for a missing key
abbrev pub text_or_empty : Option String → String
text_or_empty none = ""
text_or_empty (some s) = s

unfoldable pub validate_rule_action : GoMap String → SnapshotChecked
unfolding lookup validate_action
validate_rule_action rule =
    let action = text_or_empty (lookup "action" rule) in
    if action == "" then ok tt else from_checked (validate_action action)

unfoldable pub check_mode : String → SnapshotChecked
unfolding validate_mode
check_mode mode = if mode == "" then ok tt else from_checked (validate_mode mode)

module _ (go : Go) where
  unfoldable pub check_cidr : String → SnapshotChecked
  unfolding validate_cidr
  check_cidr cidr = from_checked (validate_cidr go cidr)

  -- The order in which Go visits the map of the sets decides at most which error is returned.
  unfoldable pub check_set : String × List String → SnapshotChecked
  unfolding check_each
  check_set entry = check_each check_cidr entry.1

  -- validatePolicySnapshot, behind the decoder
  unfoldable pub validate_decoded : PolicySnapshot → SnapshotChecked
  unfolding check_mode check_each check_set validate_rule_action validate_custom_rule
      validate_rate_limit
  validate_decoded s = do
    check_mode s.mode
    check_each check_cidr s.ip_blocks
    check_each check_set s.ip_sets
    check_each validate_rule_action s.rules
    check_each (validate_custom_rule go s.ip_sets) s.custom_rules
    check_each (validate_rate_limit go s.ip_sets) s.rate_limits

  unfoldable pub after_decoding : Option PolicySnapshot → SnapshotChecked
  unfolding validate_decoded
  after_decoding none = err snapshot_malformed
  after_decoding (some s) = validate_decoded s

  unfoldable pub validate_policy_snapshot : Parsers → String → SnapshotChecked
  unfolding validate_json
  validate_policy_snapshot net raw =
      if raw == ""
      then ok tt
      else (from_checked (validate_json net raw "snapshot")
          >> after_decoding (net.decode_snapshot raw))
