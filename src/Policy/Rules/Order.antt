-- ===== src/Policy/Rules/Order.antt =====
-- What a successful parseCustomRules or parseRateLimitRules has established.
use mathlib.Core.List.{Perm}
use mathlib.Core.List.Perm
use bedem_waf.Common.{
  Bool, String, ◌≡◌, ◌≢◌, ◌⊎◌, refl, true, false, not, ◌||◌, List, [], ◌∷◌, map, arith, ◌==◌,
  eq_iff, eq_refl, ap, All,
}
use bedem_waf.Common.Int.{ℤ, pos, ◌≤ℤ◌, ◌<ℤ◌, leb_ℤ}
use bedem_waf.Common.Sort.{
  stable_sort, IsSortedBy, stable_sort-IsSortedBy, stable_sort-perm, All-stable_sort,
}
use bedem_waf.Common.Result.{ok, map_err, >>=-eq-ok, refuse->>-eq-ok, map_err-eq-ok}
use bedem_waf.Go.{Go}
use bedem_waf.Go.Text.{trim_space}
use bedem_waf.Config.{CustomRuleConfig, RateLimitConfig}
use bedem_waf.Decision.{Action, allow, count, block, is_allow, is_count, is_block, action_of}
use bedem_waf.Policy.{RateLimitRule, CustomRule, IpSets}
use bedem_waf.Policy.Validation.{
  within, rule_id_required, rule_name_required, unsupported_action, invalid_status_code,
  limit_not_positive, window_not_positive, unsupported_key_type, key_header_required,
  duplicate_rule_id, Parsed, parse_condition,
}
use bedem_waf.Policy.Matching.Meaning.{IsSingle, IsSingle-of_parsed}
use bedem_waf.Policy.Rules.{
  is_member, rules_from, parse_custom_rule, parse_custom_rules, parse_match, parse_rate_limit,
  parse_rate_limits, bad_status, known_key_type, custom_rule_of, rate_limit_of,
}

-- No id stands twice.
abbrev pub AreDistinct : List String → Type 0
AreDistinct [] = Unit
AreDistinct (x ∷ xs) = All (λ y. x ≢ y) xs × AreDistinct xs

module _ (go : Go) {V R : Type 0} (id : V → String) (parse : V → Parsed R) where
  -- A successful round: the id is new and not blank, and the rule is parsed.
  round_of_ok :
      (seen : List String) (v : V) (vs : List V) (rs : List R)
      → rules_from go id parse seen (v ∷ vs) ≡ ok rs
      → (r : R) × (rest : List R) × (parse v ≡ ok r)
        × (rules_from go id parse (id v ∷ seen) vs ≡ ok rest)
        × (rs ≡ r ∷ rest)
        × (is_member (id v) seen ≡ false)
        × (trim_space go (id v) ≢ "")
  unfolding rules_from
  round_of_ok seen v vs rs h =
      let (named, h₁) = refuse->>-eq-ok (trim_space go (id v) == "") rule_id_required _ h in
      let (fresh, h₂) = refuse->>-eq-ok (is_member (id v) seen) (duplicate_rule_id (id v)) _ h₁ in
      let (r, e, h₃) = >>=-eq-ok (parse v) _ h₂ in
      let (rest, e', h₄) = >>=-eq-ok (rules_from go id parse (id v ∷ seen) vs) _ h₃ in
      (r, rest, e, e', cc, fresh, ground (arith, eq_iff (trim_space go (id v)) ""))

  rules_from_unseen :
      (seen : List String) (vs : List V) (rs : List R)
      → rules_from go id parse seen vs ≡ ok rs
      → (x : String) → is_member x seen ≡ true
      → All (λ y. x ≢ y) (map id vs)
  rules_from_unseen seen [] rs h x m = tt
  rules_from_unseen seen (v ∷ vs) rs h x m =
      let (r, rest, e, e', same, fresh, named) = round_of_ok seen v vs rs h in
      (
        λ p. ground (arith, ap (λ y. is_member y seen) p),
        rules_from_unseen (id v ∷ seen) vs rest e' x (ground (arith, eq_iff (id v) x)),
      )

  pub rules_from-AreDistinct :
      (seen : List String) (vs : List V) (rs : List R)
      → rules_from go id parse seen vs ≡ ok rs
      → AreDistinct (map id vs)
  rules_from-AreDistinct seen [] rs h = tt
  rules_from-AreDistinct seen (v ∷ vs) rs h =
      let (r, rest, e, e', same, fresh, named) = round_of_ok seen v vs rs h in
      (
        rules_from_unseen (id v ∷ seen) vs rest e' (id v) (ground (arith, eq_refl (id v))),
        rules_from-AreDistinct (id v ∷ seen) vs rest e',
      )

  -- What every parsed rule has, if the parser of one rule gives it.
  pub rules_from-All :
      (P : R → Type 0)
      → ((v : V) (r : R) → parse v ≡ ok r → P r)
      → (seen : List String) (vs : List V) (rs : List R) → rules_from go id parse seen vs ≡ ok rs
      → All P rs
  unfolding rules_from
  rules_from-All P each seen [] rs h = let e : rs ≡ [] = cc in rw e tt
  rules_from-All P each seen (v ∷ vs) rs h =
      let (r, rest, e, e', same, fresh, named) = round_of_ok seen v vs rs h in
      rw same (each v r e, rules_from-All P each (id v ∷ seen) vs rest e')

  pub rules_from-ids :
      (rid : R → String)
      → ((v : V) (r : R) → parse v ≡ ok r → rid r ≡ id v)
      → (seen : List String) (vs : List V) (rs : List R) → rules_from go id parse seen vs ≡ ok rs
      → map rid rs ≡ map id vs
  unfolding rules_from
  rules_from-ids rid each seen [] rs h = let e : rs ≡ [] = cc in rw e refl
  rules_from-ids rid each seen (v ∷ vs) rs h =
      let (r, rest, e, e', same, fresh, named) = round_of_ok seen v vs rs h in
      rw (same, each v r e, rules_from-ids rid each (id v ∷ seen) vs rest e') refl

-- A custom rule that the gateway can run.
pub record IsRunnable (r : CustomRule) : Type 0 where
  pub known_action : (r.action ≡ allow) ⊎ (r.action ≡ count) ⊎ (r.action ≡ block)
  pub status_min : pos 0 ≤ℤ r.status_code
  pub status_max : r.status_code ≤ℤ pos 999
  pub named : r.name ≢ ""
  pub single : IsSingle r.when

-- A rate limit that the gateway can run.
pub record IsUsableLimit (r : RateLimitRule) : Type 0 where
  pub known_action : (r.action ≡ count) ⊎ (r.action ≡ block)
  pub status_min : pos 0 ≤ℤ r.status_code
  pub status_max : r.status_code ≤ℤ pos 999
  pub limit_pos : pos 0 <ℤ r.limit
  pub window_pos : pos 0 <ℤ r.window_seconds
  pub named : r.name ≢ ""
  pub known_key : known_key_type r.key_type ≡ true

bad_status_bounds : (s : ℤ) → bad_status s ≡ false → (pos 0 ≤ℤ s) × (s ≤ℤ pos 999)
bad_status_bounds s h = ground arith

not_positive : (n : ℤ) → leb_ℤ n (pos 0) ≡ false → pos 0 <ℤ n
not_positive n h = ground arith

custom_actions :
    (a : Action)
    → not (is_allow a || is_count a || is_block a) ≡ false
    → (a ≡ allow) ⊎ (a ≡ count) ⊎ (a ≡ block)
custom_actions a h = ground arith

limit_actions : (a : Action) → not (is_count a || is_block a) ≡ false → (a ≡ count) ⊎ (a ≡ block)
limit_actions a h = ground arith

not-not : (b : Bool) → not b ≡ false → b ≡ true
not-not b h = ground arith

ne_of_test : (s t : String) → (s == t) ≡ false → s ≢ t
ne_of_test s t h = ground (arith, eq_iff s t)

module _ (go : Go) (ip_sets : IpSets) where
  parse_custom_rule-IsRunnable :
      (v : CustomRuleConfig) (r : CustomRule)
      → parse_custom_rule go ip_sets v ≡ ok r
      → IsRunnable r × (r.id ≡ v.id)
  unfolding parse_custom_rule
  parse_custom_rule-IsRunnable v r h =
      let (named, h₁) = refuse->>-eq-ok (v.name == "") (rule_name_required v.id) _ h in
      let (known, h₂) = refuse->>-eq-ok _ (unsupported_action v.id v.action) _ h₁ in
      let (fits, h₃) =
        refuse->>-eq-ok (bad_status v.status_code) (invalid_status_code v.id v.status_code) _ h₂ in
      let (when, parsed, h₄) =
        >>=-eq-ok (map_err (within v.id) (parse_condition go ip_sets v.when)) _ h₃ in
      let single =
        IsSingle-of_parsed go ip_sets v.when when (map_err-eq-ok (within v.id) _ parsed) in
      let same : custom_rule_of v when ≡ r = cc in
      let (least, most) = bad_status_bounds v.status_code fits in
      rw (← same) (
        record {
          known_action = custom_actions (action_of v.action) known;
          status_min = least;
          status_max = most;
          named = ne_of_test v.name "" named;
          single = single;
        },
        refl,
      )

  -- What parseCustomRules returns: rules in order of priority, each of which the gateway can run,
  -- with the ids that were configured, none of them twice.
  pub parse_custom_rules_sound :
      (vs : List CustomRuleConfig) (rs : List CustomRule)
      → parse_custom_rules go ip_sets vs ≡ ok rs
      → IsSortedBy (λ r. r.priority) rs
        × All IsRunnable rs
        × Perm (map (λ r. r.id) rs) (map (λ v. v.id) vs)
        × AreDistinct (map (λ v. v.id) vs)
  unfolding parse_custom_rules
  parse_custom_rules_sound vs rs h =
      let parse = parse_custom_rule go ip_sets in
      let id : CustomRuleConfig → String = λ v. v.id in
      let (raw, e, h₁) = >>=-eq-ok (rules_from go id parse [] vs) _ h in
      let same : stable_sort (λ (r : CustomRule). r.priority) raw ≡ rs = cc in
      let each = λ (v : CustomRuleConfig) (r : CustomRule). parse_custom_rule-IsRunnable v r in
      let ids = rules_from-ids go id parse (λ r. r.id) (λ v r p. (each v r p).1) [] vs raw e in
      rw (← same, ← ids)
        (
          stable_sort-IsSortedBy (λ (r : CustomRule). r.priority) raw,
          All-stable_sort (λ (r : CustomRule). r.priority) IsRunnable raw
              (rules_from-All go id parse IsRunnable (λ v r p. (each v r p).0) [] vs raw e),
          Perm.map (λ (r : CustomRule). r.id)
              (stable_sort-perm (λ (r : CustomRule). r.priority) raw),
          rw ids (rules_from-AreDistinct go id parse [] vs raw e),
        )

  parse_rate_limit-IsUsableLimit :
      (v : RateLimitConfig) (r : RateLimitRule)
      → parse_rate_limit go ip_sets v ≡ ok r
      → IsUsableLimit r × (r.id ≡ v.id)
  unfolding parse_rate_limit
  parse_rate_limit-IsUsableLimit v r h =
      let (named, h₁) = refuse->>-eq-ok (v.name == "") (rule_name_required v.id) _ h in
      let (limit, h₂) = refuse->>-eq-ok (leb_ℤ v.limit (pos 0)) (limit_not_positive v.id) _ h₁ in
      let (window, h₃) =
        refuse->>-eq-ok (leb_ℤ v.window_seconds (pos 0)) (window_not_positive v.id) _ h₂ in
      let (known, h₄) = refuse->>-eq-ok _ (unsupported_action v.id v.action) _ h₃ in
      let (key, h₅) =
        refuse->>-eq-ok (not (known_key_type v.key_type)) (unsupported_key_type v.id v.key_type) _
          h₄ in
      let (header, h₆) = refuse->>-eq-ok _ (key_header_required v.id) _ h₅ in
      let (fits, h₇) =
        refuse->>-eq-ok (bad_status v.status_code) (invalid_status_code v.id v.status_code) _ h₆ in
      let (match, parsed, h₈) =
        >>=-eq-ok (map_err (within v.id) (parse_match go ip_sets v.match_expression)) _ h₇ in
      let same : rate_limit_of go v match ≡ r = cc in
      let (least, most) = bad_status_bounds v.status_code fits in
      rw (← same) (
        record {
          known_action = limit_actions (action_of v.action) known;
          status_min = least;
          status_max = most;
          limit_pos = not_positive v.limit limit;
          window_pos = not_positive v.window_seconds window;
          named = ne_of_test v.name "" named;
          known_key = not-not (known_key_type v.key_type) key;
        },
        refl,
      )

  -- What parseRateLimitRules returns: limits in order of priority, each with a positive limit and a
  -- positive window, an action of count or block and a known key, with the ids that were
  -- configured, none of them twice.
  pub parse_rate_limits_sound :
      (vs : List RateLimitConfig) (rs : List RateLimitRule)
      → parse_rate_limits go ip_sets vs ≡ ok rs
      → IsSortedBy (λ r. r.priority) rs
        × All IsUsableLimit rs
        × Perm (map (λ r. r.id) rs) (map (λ v. v.id) vs)
        × AreDistinct (map (λ v. v.id) vs)
  unfolding parse_rate_limits
  parse_rate_limits_sound vs rs h =
      let parse = parse_rate_limit go ip_sets in
      let id : RateLimitConfig → String = λ v. v.id in
      let (raw, e, h₁) = >>=-eq-ok (rules_from go id parse [] vs) _ h in
      let same : stable_sort (λ (r : RateLimitRule). r.priority) raw ≡ rs = cc in
      let each = λ (v : RateLimitConfig) (r : RateLimitRule). parse_rate_limit-IsUsableLimit v r in
      let ids = rules_from-ids go id parse (λ r. r.id) (λ v r p. (each v r p).1) [] vs raw e in
      rw (← same, ← ids)
        (
          stable_sort-IsSortedBy (λ (r : RateLimitRule). r.priority) raw,
          All-stable_sort (λ (r : RateLimitRule). r.priority) IsUsableLimit raw
              (rules_from-All go id parse IsUsableLimit (λ v r p. (each v r p).0) [] vs raw e),
          Perm.map (λ (r : RateLimitRule). r.id)
              (stable_sort-perm (λ (r : RateLimitRule). r.priority) raw),
          rw ids (rules_from-AreDistinct go id parse [] vs raw e),
        )
