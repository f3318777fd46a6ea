-- ===== src/Policy/Evaluation.antt =====
-- App.EvaluateIP and App.EvaluateCustomRules, of store.go.
pub mod Addresses
pub mod Verdict
use bedem_waf.Common.{
  String, Bool, true, false, not, ◌&&◌, ◌||◌, Option, none, some, List, [], ◌∷◌, ◌++◌, is_nonempty,
  if◌then◌else◌,
}
use Prim.Native.String
use bedem_waf.Go.{Go}
use bedem_waf.Go.Netip.{Addr, Prefix, prefix_contains}
use bedem_waf.Decision.{
  Action, allow, count, block, Decision, allow_decision, block_decision, count_decision, allow_rule,
  with_status,
}
use bedem_waf.Policy.{CustomRule, IpSets, App, RequestContext}
use bedem_waf.Policy.Matching.{match, ip_in_set}

-- The part of EvaluateIP behind the block list.
unfoldable pub evaluate_allowlist : Addr → List Prefix → Decision
evaluate_allowlist ip allowlist =
    if is_nonempty allowlist
    then (if ip_in_set ip allowlist
        then allow_decision
        else block_decision "ip_allowlist" "ip_allowlist")
    else allow_decision

module _ (go : Go) where
  -- The loop over the block list: the decision of the first prefix that has the address.
  unfoldable pub first_blocked : Addr → List Prefix → Option Decision
  first_blocked ip [] = none
  first_blocked ip (p ∷ ps) =
      if prefix_contains p ip
      then some (block_decision "ip_blocklist" (String.◌++◌ "ip_blocklist:" (go.prefix_string p)))
      else first_blocked ip ps

  unfoldable pub evaluate_ip : App → Addr → Decision
  evaluate_ip app ip = elim (first_blocked ip app.ip_blocklist) [
    | some d ↦ d
    | none ↦ evaluate_allowlist ip app.ip_allowlist
  ]

-- The decisions that a matching rule makes.
abbrev pub custom_block : CustomRule → Decision
custom_block rule = record (with_status (block_decision "custom_rule" rule.id) rule.status_code) {
  matched_rule_name = rule.name;
  rule_group = "custom";
  tags = "custom_rule" ∷ [];
}

abbrev pub custom_count : CustomRule → Decision
custom_count rule = record (count_decision "custom_rule" rule.id) {
  matched_rule_name = rule.name;
  rule_group = "custom";
  tags = "custom_rule" ∷ [];
}

abbrev pub custom_allow : CustomRule → Decision
custom_allow rule = record (allow_rule "custom_rule_allow" rule.id) {
  matched_rule_name = rule.name;
  rule_group = "custom";
  tags = "custom_rule" ∷ "terminal_allow" ∷ [];
}

-- The decision behind the loop; `firstCount` is none while its action is empty.
abbrev pub or_allow : Option Decision → Decision
or_allow none = allow_decision
or_allow (some d) = d

abbrev pub keep_first : Option Decision → Decision → Option Decision
keep_first none d = some d
keep_first (some c) d = some c

-- The switch of the loop: `next` is the rest of the loop, `counted` the rest with this rule counted.
unfoldable pub by_action : Action → CustomRule → Decision → Decision → Decision
by_action block rule next counted = custom_block rule
by_action count rule next counted = counted
by_action allow rule next counted = if rule.terminal_allow then custom_allow rule else next
by_action _ rule next counted = next

module _ (go : Go) (ctx : RequestContext) (ip_sets : IpSets) where
  -- The loop of EvaluateCustomRules, with `firstCount`.
  unfoldable pub evaluate_rules : Option Decision → List CustomRule → Decision
  evaluate_rules first [] = or_allow first
  evaluate_rules first (rule ∷ rules) =
      let next = evaluate_rules first rules in
      let counted = evaluate_rules (keep_first first (custom_count rule)) rules in
      if not rule.enabled
      then next
      else if not (match go ctx ip_sets rule.when)
      then next
      else by_action rule.action rule next counted

unfoldable pub evaluate_custom_rules : Go → App → RequestContext → Decision
evaluate_custom_rules go app ctx = evaluate_rules go ctx app.ip_sets none app.custom_rules
