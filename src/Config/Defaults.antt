-- ===== src/Config/Defaults.antt =====
-- The part of applyDefaults and validate, of services/gateway/internal/config/config.go, that is about
-- the apps.
pub mod Valid
use bedem_waf.Common.{
  String, Bool, true, false, not, ◌&&◌, ◌||◌, Option, none, some, List, [], ◌∷◌, map, ◌==◌,
  is_nonempty, if◌then◌else◌,
}
use bedem_waf.Common.Int.{ℤ, pos, eqb_ℤ}
use bedem_waf.Common.Result.{Result, ok, err, ◌>>=◌, ◌>>◌, refuse}
use bedem_waf.Go.{Go, Url}
use bedem_waf.Config.{RateLimitConfig, CustomRuleConfig, PolicyConfig, AppConfig}

-- `if s == "" { s = fallback }`
abbrev pub or_text : String → String → String
or_text fallback s = if s == "" then fallback else s

abbrev pub or_number : ℤ → ℤ → ℤ
or_number fallback n = if eqb_ℤ n (pos 0) then fallback else n

unfoldable pub default_rate_limit : RateLimitConfig → RateLimitConfig
default_rate_limit r = record r {
  id = or_text r.name r.id;
  key_type = or_text "ip" (or_text r.key r.key_type);
  action = or_text "count" r.action;
  status_code = or_number (pos 429) r.status_code;
}

unfoldable pub default_custom_rule : CustomRuleConfig → CustomRuleConfig
default_custom_rule r = record r {
  action = or_text "count" r.action;
  status_code = or_number (pos 403) r.status_code;
}

abbrev pub default_policy : PolicyConfig → PolicyConfig
default_policy p = record p {
  mode = or_text "count" p.mode;
  default_action = or_text "allow" p.default_action;
  rate_limits = map default_rate_limit p.rate_limits;
  custom_rules = map default_custom_rule p.custom_rules;
}

-- The loop of applyDefaults over the apps.
unfoldable pub default_apps : List AppConfig → List AppConfig
default_apps apps = map (λ (a : AppConfig). record a { policy = default_policy a.policy }) apps

pub data ConfigError : Type 0 where
  app_id_required : ConfigError
  hostname_required origin_required : String → ConfigError
  invalid_origin invalid_mode : String → String → ConfigError

-- The parsed URL, or none where Go has an error, lacks the scheme or the host.
abbrev pub lacks_part : Option Url → Bool
lacks_part none = true
lacks_part (some u) = u.scheme == "" || u.host == ""

module _ (go : Go) where
  unfoldable pub validate_app : AppConfig → Result ConfigError (Unit {0})
  validate_app a = do
    refuse (a.id == "") app_id_required
    refuse (not (is_nonempty a.hostnames)) (hostname_required a.id)
    refuse (a.origin_url == "") (origin_required a.id)
    refuse (lacks_part (go.parse_url a.origin_url)) (invalid_origin a.id a.origin_url)
    refuse (not (a.policy.mode == "count") && not (a.policy.mode == "block"))
        (invalid_mode a.id a.policy.mode)

  -- The loop of validate over the apps.
  unfoldable pub validate_apps : List AppConfig → Result ConfigError (Unit {0})
  validate_apps [] = ok tt
  validate_apps (a ∷ apps) = validate_app a >> validate_apps apps
