-- ===== src/Tests/Configurations.antt =====
-- Examples of a configuration that is loaded, and of one that is refused.
use bedem_waf.Common.{◌≡◌, refl, true, false, some, [], ◌∷◌}
use bedem_waf.Common.Int.{pos, negsuc}
use bedem_waf.Common.Result.{ok, err}
use bedem_waf.Config.Defaults.{
  validate_app, validate_apps, default_apps, default_rate_limit, default_custom_rule,
}
use bedem_waf.Config.Loading.{
  Config, default_server, default_waf, default_control_api, apply_defaults, validate_server,
  validate_waf, validate, load_file, timeout_negative,
}
use bedem_waf.Config.Loading.Checked.{IsChecked, load_file-IsChecked}
use bedem_waf.Tests.Samples.{sample_go, shop_config}

-- What a file gives that names an app and enables the engine.
abbrev written : Config
written = record {
  server = record {
    listen_addr = "";
    trusted_proxies = [];
    read_header_timeout_millis = pos 0;
    read_timeout_millis = pos 0;
    write_timeout_millis = pos 1000;
    idle_timeout_millis = pos 0;
    max_header_bytes = pos 0;
  };
  redis = record { enabled = false; addr = ""; fail_mode = "" };
  click_house = record { enabled = false; url = ""; database = ""; username = ""; password = "" };
  waf = record {
    enabled = true;
    engine = "";
    rule_engine = "On";
    request_body_limit_bytes = pos 0;
    directives_file = "";
    debug_body_preview = false;
    body_preview_bytes = pos 0;
  };
  control_api = record {
    enabled = false;
    base_url = "";
    gateway_api_key = "";
    cache_ttl_seconds = pos 0;
    fail_behavior = "";
  };
  apps = shop_config ∷ [];
}

loads :
    load_file sample_go (λ path. some "text") (λ s. s) (λ s. some written) "gateway.yaml"
    ≡ ok (apply_defaults written)
unfolding load_file validate apply_defaults default_server default_waf default_control_api
    validate_server validate_waf validate_apps validate_app default_apps default_rate_limit
    default_custom_rule
loads = refl

load_file-IsChecked_example : IsChecked sample_go (apply_defaults written)
load_file-IsChecked_example =
    load_file-IsChecked sample_go (λ path. some "text") (λ s. s) (λ s. some written) "gateway.yaml"
      (apply_defaults written) loads

refuses_negative :
    validate_server (default_server (record written.server { idle_timeout_millis = negsuc 0 }))
    ≡ err timeout_negative
unfolding validate_server default_server
refuses_negative = refl
