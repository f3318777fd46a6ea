-- ===== src/Config/Loading.antt =====
-- LoadFile, applyDefaults and validate of services/gateway/internal/config/config.go, for the whole
-- configuration.
pub mod Checked
use bedem_waf.Common.{
  String, Bool, true, false, not, ◌&&◌, ◌||◌, Option, none, some, List, ◌==◌, is_nonempty,
  if◌then◌else◌,
}
use bedem_waf.Common.Int.{ℤ, pos, ltb_ℤ, leb_ℤ}
use bedem_waf.Common.Result.{Result, ok, err, ◌>>=◌, ◌>>◌, refuse}
use bedem_waf.Go.{Go}
use bedem_waf.Config.{AppConfig}
use bedem_waf.Config.Defaults.{
  or_text, or_number, default_apps, ConfigError, lacks_part, validate_apps,
}

pub record ServerConfig : Type 0 where
  pub listen_addr : String
  pub trusted_proxies : List String
  pub read_header_timeout_millis : ℤ
  pub read_timeout_millis : ℤ
  pub write_timeout_millis : ℤ
  pub idle_timeout_millis : ℤ
  pub max_header_bytes : ℤ

pub record RedisConfig : Type 0 where
  pub enabled : Bool
  pub addr : String
  pub fail_mode : String

pub record ClickHouseConfig : Type 0 where
  pub enabled : Bool
  pub url : String
  pub database : String
  pub username : String
  pub password : String

pub record WafConfig : Type 0 where
  pub enabled : Bool
  pub engine : String
  pub rule_engine : String
  pub request_body_limit_bytes : ℤ
  pub directives_file : String
  pub debug_body_preview : Bool
  pub body_preview_bytes : ℤ

pub record ControlApiConfig : Type 0 where
  pub enabled : Bool
  pub base_url : String
  pub gateway_api_key : String
  pub cache_ttl_seconds : ℤ
  pub fail_behavior : String

pub record Config : Type 0 where
  pub server : ServerConfig
  pub redis : RedisConfig
  pub click_house : ClickHouseConfig
  pub waf : WafConfig
  pub control_api : ControlApiConfig
  pub apps : List AppConfig

unfoldable pub default_server : ServerConfig → ServerConfig
default_server s = record s {
  listen_addr = or_text ":8080" s.listen_addr;
  read_header_timeout_millis = or_number (pos 5000) s.read_header_timeout_millis;
  read_timeout_millis = or_number (pos 30000) s.read_timeout_millis;
  write_timeout_millis = or_number (pos 30000) s.write_timeout_millis;
  idle_timeout_millis = or_number (pos 60000) s.idle_timeout_millis;
  max_header_bytes = or_number (pos 1048576) s.max_header_bytes;
}

unfoldable pub default_waf : WafConfig → WafConfig
default_waf w = record w {
  engine = or_text "coraza" w.engine;
  rule_engine = or_text "DetectionOnly" w.rule_engine;
  request_body_limit_bytes = or_number (pos 1048576) w.request_body_limit_bytes;
  body_preview_bytes = or_number (pos 512) w.body_preview_bytes;
}

unfoldable pub default_control_api : ControlApiConfig → ControlApiConfig
default_control_api c = record c {
  base_url = or_text "http://localhost:8081" c.base_url;
  cache_ttl_seconds = or_number (pos 30) c.cache_ttl_seconds;
  fail_behavior = or_text "use_stale_then_fail_open" c.fail_behavior;
}

unfoldable pub apply_defaults : Config → Config
unfolding default_server default_waf default_control_api default_apps
apply_defaults cfg = record {
  server = default_server cfg.server;
  redis = record cfg.redis {
    addr = or_text "localhost:6379" cfg.redis.addr;
    fail_mode = or_text "open" cfg.redis.fail_mode;
  };
  click_house = record cfg.click_house {
    url = or_text "http://localhost:8123" cfg.click_house.url;
    database = or_text "bedemwaf" cfg.click_house.database;
  };
  waf = default_waf cfg.waf;
  control_api = default_control_api cfg.control_api;
  apps = default_apps cfg.apps;
}

pub data LoadError : Type 0 where
  file_unread yaml_malformed app_required : LoadError
  base_url_invalid api_key_required cache_ttl_not_positive fail_behavior_unknown : LoadError
  bad_app : ConfigError → LoadError
  timeout_negative max_header_negative : LoadError
  engine_unsupported rule_engine_unknown body_limit_negative fail_mode_unknown : LoadError

abbrev pub Validated : Type 0
Validated = Result LoadError (Unit {0})

abbrev pub from_apps : Result ConfigError (Unit {0}) → Validated
from_apps (ok x) = ok tt
from_apps (err e) = err (bad_app e)

abbrev pub or_load : {A : Type 0} → LoadError → Option A → Result LoadError A
or_load e none = err e
or_load e (some a) = ok a

-- The part of validate about the server.
unfoldable pub validate_server : ServerConfig → Validated
validate_server s = do
  refuse
      (ltb_ℤ s.read_header_timeout_millis (pos 0)
        || ltb_ℤ s.read_timeout_millis (pos 0)
        || ltb_ℤ s.write_timeout_millis (pos 0)
        || ltb_ℤ s.idle_timeout_millis (pos 0))
      timeout_negative
  refuse (ltb_ℤ s.max_header_bytes (pos 0)) max_header_negative

-- The checks of an enabled engine.
unfoldable pub validate_waf : WafConfig → Validated
validate_waf w = do
  refuse (not (w.engine == "coraza")) engine_unsupported
  refuse (not (w.rule_engine == "On" || w.rule_engine == "DetectionOnly" || w.rule_engine == "Off"))
      rule_engine_unknown
  refuse (ltb_ℤ w.request_body_limit_bytes (pos 0)) body_limit_negative

module _ (go : Go) where
  -- The checks of an enabled control API.
  unfoldable pub validate_control_api : ControlApiConfig → Validated
  validate_control_api c = do
    refuse (lacks_part (go.parse_url c.base_url)) base_url_invalid
    refuse (c.gateway_api_key == "") api_key_required
    refuse (leb_ℤ c.cache_ttl_seconds (pos 0)) cache_ttl_not_positive
    refuse
        (not (
          c.fail_behavior == "fail_open"
          || c.fail_behavior == "fail_closed"
          || c.fail_behavior == "use_stale_then_fail_open"))
        fail_behavior_unknown

  unfoldable pub validate : Config → Validated
  validate cfg = do
    refuse (not (is_nonempty cfg.apps) && not cfg.control_api.enabled) app_required
    if cfg.control_api.enabled then validate_control_api cfg.control_api else ok tt
    from_apps (validate_apps go cfg.apps)
    validate_server cfg.server
    if cfg.waf.enabled then validate_waf cfg.waf else ok tt
    refuse (not (cfg.redis.fail_mode == "open" || cfg.redis.fail_mode == "closed"))
        fail_mode_unknown

  -- os.ReadFile, os.ExpandEnv and the YAML decoder are arguments.
  unfoldable pub load_file :
      (String → Option String)
      → (String → String)
      → (String → Option Config)
      → String
      → Result LoadError Config
  load_file read_file expand_env decode path = do
    data_text ← or_load file_unread (read_file path)
    raw ← or_load yaml_malformed (decode (expand_env data_text))
    let cfg = apply_defaults raw
    validate cfg
    ok cfg
