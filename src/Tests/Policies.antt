-- ===== src/Tests/Policies.antt =====
-- Examples of the parser, the store and the evaluation of a policy.
use bedem_waf.Common.{◌≡◌, ◌≢◌, ◌⊎◌, refl, String, true, some, [], ◌∷◌, Member, All, inl, map, ◌↔◌}
use bedem_waf.Common.Int.{pos}
use bedem_waf.Common.Sort.{IsSortedBy}
use mathlib.Core.List.{Perm}
use bedem_waf.Common.Result.{ok}
use bedem_waf.Go.Maps.{GoMap, lookup, insert}
use bedem_waf.Config.{AppConfig, CustomRuleConfig, RateLimitConfig}
use bedem_waf.Decision.{
  Mode, count_mode, Decision, allow_decision, block_decision, would_block, enforced_action, block,
}
use bedem_waf.Decision.Enforcement.{IsRefusal, would_block_iff, enforced_action_by_mode}
use bedem_waf.Policy.{App, CustomRule, RateLimitRule, RequestContext}
use bedem_waf.Policy.Host.{normalize_host}
use bedem_waf.Policy.Validation.{parse_condition, validate_condition}
use bedem_waf.Policy.Validation.Accepted.{IsAccepted, canonical, parse_condition_iff}
use bedem_waf.Policy.Matching.{match}
use bedem_waf.Policy.Matching.Meaning.{meaning, match-eq-meaning_of_parsed}
use bedem_waf.Policy.Rules.{
  new_app, parse_custom_rule, parse_custom_rules, parse_rate_limit, parse_rate_limits,
}
use bedem_waf.Policy.Rules.Order.{
  AreDistinct, IsRunnable, IsUsableLimit, parse_custom_rules_sound, parse_rate_limits_sound,
}
use bedem_waf.Policy.Evaluation.{evaluate_ip, evaluate_custom_rules, evaluate_rules, by_action}
use bedem_waf.Policy.Evaluation.Addresses.{IsAdmitted, IsTurnedAway, evaluate_ip_cases}
use bedem_waf.Policy.Evaluation.Verdict.{
  IsDecided, IsCounted, IsPassed, evaluate_custom_rules_cases,
}
use bedem_waf.Policy.Store.{new_store, match_host}
use bedem_waf.Policy.Store.Routing.{new_store_routes, new_store_source}
use bedem_waf.Tests.Samples.{
  sample_go, on_admin, admin_rule_config, limit_config, shop_config, admin_rule, client_limit, shop,
  closed_shop, client,
}

abbrev shop_store : GoMap App
shop_store = ("shop.test", shop) ∷ []

abbrev admin_context : RequestContext
admin_context = record {
  method = "GET";
  path = "/admin/users";
  host = "shop.test";
  headers = [];
  query = [];
  client_ip = client;
}

-- The configured app is parsed, and stands in the store under its name.
new_store-shop : new_store sample_go (shop_config ∷ []) ≡ ok shop_store
unfolding new_store new_app normalize_host insert
new_store-shop = refl

-- The request for the admin page is blocked with the status of the rule.
evaluate-admin : (evaluate_custom_rules sample_go shop admin_context).status_code ≡ pos 451
unfolding evaluate_custom_rules match evaluate_rules by_action
evaluate-admin = refl

same_name : normalize_host sample_go " Shop.TEST:8080 " ≡ normalize_host sample_go "shop.test"
unfolding normalize_host
same_name = refl

new_store_routes_example :
    (app : App) × (new_app sample_go shop_config ≡ ok app)
    × (match_host sample_go shop_store " Shop.TEST:8080 " ≡ some app)
new_store_routes_example =
    new_store_routes sample_go (shop_config ∷ []) shop_store new_store-shop shop_config "shop.test"
      " Shop.TEST:8080 " (inl refl) (inl refl) same_name

match_host-shop : match_host sample_go shop_store "SHOP.test" ≡ some shop
unfolding match_host normalize_host lookup
match_host-shop = refl

new_store_source_example :
    (cfg : AppConfig) × Member cfg (shop_config ∷ [])
    × (new_app sample_go cfg ≡ ok shop)
    × ((h : String) × Member h cfg.hostnames
        × (normalize_host sample_go h ≡ normalize_host sample_go "SHOP.test"))
new_store_source_example =
    new_store_source sample_go (shop_config ∷ []) shop_store new_store-shop "SHOP.test" shop
      match_host-shop

parse_condition_iff_example :
    (parse_condition sample_go [] on_admin ≡ ok on_admin)
    ↔ (IsAccepted [] on_admin × (on_admin ≡ canonical sample_go on_admin))
parse_condition_iff_example = parse_condition_iff sample_go [] on_admin on_admin

parse-on_admin : parse_condition sample_go [] on_admin ≡ ok on_admin
unfolding parse_condition validate_condition
parse-on_admin = refl

match-eq-meaning_of_parsed_example :
    match sample_go admin_context [] on_admin ≡ meaning sample_go admin_context [] on_admin
match-eq-meaning_of_parsed_example =
    match-eq-meaning_of_parsed sample_go admin_context [] [] on_admin on_admin parse-on_admin

parse-rules : parse_custom_rules sample_go [] (admin_rule_config ∷ []) ≡ ok (admin_rule ∷ [])
unfolding parse_custom_rules parse_custom_rule validate_condition
parse-rules = refl

parse_custom_rules_sound_example :
    IsSortedBy (λ (r : CustomRule). r.priority) (admin_rule ∷ [])
    × All IsRunnable (admin_rule ∷ [])
    × Perm
        (map (λ (r : CustomRule). r.id) (admin_rule ∷ []))
        (map (λ (v : CustomRuleConfig). v.id) (admin_rule_config ∷ []))
    × AreDistinct (map (λ (v : CustomRuleConfig). v.id) (admin_rule_config ∷ []))
parse_custom_rules_sound_example =
    parse_custom_rules_sound sample_go [] (admin_rule_config ∷ []) (admin_rule ∷ []) parse-rules

parse-limits : parse_rate_limits sample_go [] (limit_config ∷ []) ≡ ok (client_limit ∷ [])
unfolding parse_rate_limits parse_rate_limit
parse-limits = refl

parse_rate_limits_sound_example :
    IsSortedBy (λ (r : RateLimitRule). r.priority) (client_limit ∷ [])
    × All IsUsableLimit (client_limit ∷ [])
    × Perm
        (map (λ (r : RateLimitRule). r.id) (client_limit ∷ []))
        (map (λ (v : RateLimitConfig). v.id) (limit_config ∷ []))
    × AreDistinct (map (λ (v : RateLimitConfig). v.id) (limit_config ∷ []))
parse_rate_limits_sound_example =
    parse_rate_limits_sound sample_go [] (limit_config ∷ []) (client_limit ∷ []) parse-limits

evaluate_ip_cases_example :
    ((evaluate_ip sample_go closed_shop client ≡ allow_decision)
      × IsAdmitted sample_go client closed_shop)
    ⊎ (((evaluate_ip sample_go closed_shop client).action ≡ block)
        × ((evaluate_ip sample_go closed_shop client).status_code ≡ pos 403)
        × IsTurnedAway sample_go client closed_shop)
evaluate_ip_cases_example = evaluate_ip_cases sample_go client closed_shop

evaluate_custom_rules_cases_example :
    IsDecided sample_go admin_context []
      (admin_rule ∷ [])
      (evaluate_custom_rules sample_go shop admin_context)
    ⊎ IsCounted sample_go admin_context []
        (admin_rule ∷ [])
        (evaluate_custom_rules sample_go shop admin_context)
    ⊎ IsPassed sample_go admin_context []
        (admin_rule ∷ [])
        (evaluate_custom_rules sample_go shop admin_context)
evaluate_custom_rules_cases_example =
    evaluate_custom_rules_cases sample_go shop admin_context (tt, tt)

abbrev teapot : Decision
teapot = block_decision "custom_rule" "r1"

would_block_iff_example : (would_block teapot ≡ true) ↔ IsRefusal teapot.action
would_block_iff_example = would_block_iff teapot

enforced_action_by_mode_example :
    (¬ IsRefusal (enforced_action count_mode teapot))
    × ((m : Mode) → m ≢ count_mode → enforced_action m teapot ≡ block)
enforced_action_by_mode_example = enforced_action_by_mode teapot
