-- ===== src/Config/Loading/Checked.antt =====
-- What LoadFile has checked in a configuration that it returns. The form of the hostnames, the address
-- lists, the rules and the trusted proxies are checked later, when the policy store and the gateway are
-- built.
use bedem_waf.Common.{
  ℕ, ◌<◌, String, Bool, true, false, not, ◌&&◌, ◌||◌, ◌≡◌, ◌≢◌, ◌⊎◌, refl, inl, inr, Option, ◌==◌,
  All, arith, eq_iff, Bool-cases, is_nonempty, if◌then◌else◌,
}
use bedem_waf.Common.Int.{ℤ, pos, negsuc, ltb_ℤ, leb_ℤ, eqb_ℤ, ◌<ℤ◌}
use bedem_waf.Common.Result.{
  Result, ok, err, ok_injective, >>=-eq-ok, >>-eq-ok, refuse-eq-ok, refuse->>-eq-ok,
}
use bedem_waf.Go.{Go}
use bedem_waf.Config.Defaults.{or_number, ConfigError, lacks_part, validate_apps}
use bedem_waf.Config.Defaults.Valid.{IsBuildable, validate_apps-IsBuildable}
use bedem_waf.Config.Loading.{
  ServerConfig, WafConfig, ControlApiConfig, Config, LoadError, default_server, default_waf,
  apply_defaults, validate_server, validate_waf, validate_control_api, validate, from_apps, or_load,
  load_file, file_unread, yaml_malformed, timeout_negative, max_header_negative, engine_unsupported,
  rule_engine_unknown, body_limit_negative, fail_mode_unknown, app_required, base_url_invalid,
  api_key_required, cache_ttl_not_positive, fail_behavior_unknown,
}

positive_of : (n : ℤ) → eqb_ℤ n (pos 0) ≡ false → ltb_ℤ n (pos 0) ≡ false → pos 0 <ℤ n
positive_of (pos n) e h = ground arith
positive_of (negsuc n) e h = ground arith

-- A number behind its default that is not negative is positive.
or_number_positive :
    (fallback : ℕ) (n : ℤ)
    → 0 < fallback
    → ltb_ℤ (or_number (pos fallback) n) (pos 0) ≡ false
    → pos 0 <ℤ or_number (pos fallback) n
or_number_positive fallback n h k = elim (Bool-cases (eqb_ℤ n (pos 0))) [
  | inl e ↦ rw e (omega arith)
  | inr e ↦ rw e (positive_of n e (rw e at k))
]

not_leb→lt : (n : ℤ) → leb_ℤ n (pos 0) ≡ false → pos 0 <ℤ n
not_leb→lt n h = ground arith

-- A text is one of three.
abbrev pub IsOneOf : String → String → String → String → Type 0
IsOneOf s a b c = (s ≡ a) ⊎ (s ≡ b) ⊎ (s ≡ c)

text-IsOneOf : (s a b c : String) → not (s == a || s == b || s == c) ≡ false → IsOneOf s a b c
text-IsOneOf s a b c h = ground (arith, h, eq_iff s a, eq_iff s b, eq_iff s c)

text_of_two : (s a b : String) → not (s == a || s == b) ≡ false → (s ≡ a) ⊎ (s ≡ b)
text_of_two s a b h = ground (arith, h, eq_iff s a, eq_iff s b)

served_by : (a b : Bool) → (not a && not b) ≡ false → (a ≡ true) ⊎ (b ≡ true)
served_by a b h = ground (arith, h)

-- A check that is made only for a part that is enabled.
asked_for :
    (b : Bool) (m : Result LoadError (Unit {0}))
    → (if b then m else ok tt) ≡ ok tt
    → b ≡ true
    → m ≡ ok tt
asked_for true m h e = h
asked_for false m h e = cc

from_apps-ok : (r : Result ConfigError (Unit {0})) → from_apps r ≡ ok tt → r ≡ ok tt
from_apps-ok (ok x) h = refl
from_apps-ok (err e) h = cc

same_text : (s t : String) → not (s == t) ≡ false → s ≡ t
same_text s t h = ground (arith, h, eq_iff s t)

-- None of four tests holds.
none_of :
    (a b c d : Bool)
    → (a || b || c || d) ≡ false
    → (a ≡ false) × (b ≡ false) × (c ≡ false) × (d ≡ false)
none_of a b c d h = (ground (arith, h), ground (arith, h), ground (arith, h), ground (arith, h))

-- The server's timeouts and its limit for headers are positive.
pub record IsTimed (s : ServerConfig) : Type 0 where
  pub read_header : pos 0 <ℤ s.read_header_timeout_millis
  pub read : pos 0 <ℤ s.read_timeout_millis
  pub write : pos 0 <ℤ s.write_timeout_millis
  pub idle : pos 0 <ℤ s.idle_timeout_millis
  pub headers : pos 0 <ℤ s.max_header_bytes

default_server-IsTimed :
    (s : ServerConfig) → validate_server (default_server s) ≡ ok tt → IsTimed (default_server s)
unfolding validate_server default_server
default_server-IsTimed s h =
    let (times, h₁) = refuse->>-eq-ok _ timeout_negative _ h in
    let headers = refuse-eq-ok _ max_header_negative h₁ in
    let d = default_server s in
    let (header_time, read_time, write_time, idle_time) =
      none_of (ltb_ℤ d.read_header_timeout_millis (pos 0)) (ltb_ℤ d.read_timeout_millis (pos 0))
        (ltb_ℤ d.write_timeout_millis (pos 0)) (ltb_ℤ d.idle_timeout_millis (pos 0)) times in
    record {
      read_header = or_number_positive 5000 s.read_header_timeout_millis (omega arith) header_time;
      read = or_number_positive 30000 s.read_timeout_millis (omega arith) read_time;
      write = or_number_positive 30000 s.write_timeout_millis (omega arith) write_time;
      idle = or_number_positive 60000 s.idle_timeout_millis (omega arith) idle_time;
      headers = or_number_positive 1048576 s.max_header_bytes (omega arith) headers;
    }

-- The engine is known, and so is what its rules do; it gets a body limit.
pub record IsWafChecked (w : WafConfig) : Type 0 where
  pub engine : w.engine ≡ "coraza"
  pub rule_engine : IsOneOf (w.rule_engine) "On" "DetectionOnly" "Off"
  pub limited : pos 0 <ℤ w.request_body_limit_bytes

default_waf-IsWafChecked :
    (w : WafConfig) → validate_waf (default_waf w) ≡ ok tt → IsWafChecked (default_waf w)
unfolding validate_waf default_waf
default_waf-IsWafChecked w h =
    let (engine, h₁) = refuse->>-eq-ok _ engine_unsupported _ h in
    let (rules, h₂) = refuse->>-eq-ok _ rule_engine_unknown _ h₁ in
    let limit = refuse-eq-ok _ body_limit_negative h₂ in
    record {
      engine = same_text _ "coraza" engine;
      rule_engine = text-IsOneOf _ "On" "DetectionOnly" "Off" rules;
      limited = or_number_positive 1048576 w.request_body_limit_bytes (omega arith) limit;
    }

module _ (go : Go) where
  -- The control API can be asked, and the failure of a request has a known meaning.
  pub record IsReachable (c : ControlApiConfig) : Type 0 where
    pub located : lacks_part (go.parse_url c.base_url) ≡ false
    pub keyed : c.gateway_api_key ≢ ""
    pub cached : pos 0 <ℤ c.cache_ttl_seconds
    pub fail_behavior : IsOneOf c.fail_behavior "fail_open" "fail_closed" "use_stale_then_fail_open"

  validate_control_api-IsReachable :
      (c : ControlApiConfig) → validate_control_api go c ≡ ok tt → IsReachable c
  unfolding validate_control_api
  validate_control_api-IsReachable c h =
      let (located, h₁) =
        refuse->>-eq-ok (lacks_part (go.parse_url c.base_url)) base_url_invalid _ h in
      let (keyed, h₂) = refuse->>-eq-ok (c.gateway_api_key == "") api_key_required _ h₁ in
      let (cached, h₃) =
        refuse->>-eq-ok (leb_ℤ c.cache_ttl_seconds (pos 0)) cache_ttl_not_positive _ h₂ in
      let known = refuse-eq-ok _ fail_behavior_unknown h₃ in
      record {
        located = located;
        keyed = ground (arith, eq_iff c.gateway_api_key "", keyed);
        cached = not_leb→lt c.cache_ttl_seconds cached;
        fail_behavior = text-IsOneOf _ "fail_open" "fail_closed" "use_stale_then_fail_open" known;
      }

  pub record IsChecked (cfg : Config) : Type 0 where
    pub served : (is_nonempty cfg.apps ≡ true) ⊎ (cfg.control_api.enabled ≡ true)
    pub apps : All (IsBuildable go) cfg.apps
    pub server : IsTimed cfg.server
    pub waf : cfg.waf.enabled ≡ true → IsWafChecked cfg.waf
    pub control_api : cfg.control_api.enabled ≡ true → IsReachable cfg.control_api
    pub fail_mode : (cfg.redis.fail_mode ≡ "open") ⊎ (cfg.redis.fail_mode ≡ "closed")

  validate-IsChecked :
      (raw : Config) → validate go (apply_defaults raw) ≡ ok tt → IsChecked (apply_defaults raw)
  unfolding validate apply_defaults
  validate-IsChecked raw h =
      let cfg = apply_defaults raw in
      let (served, h₁) =
        refuse->>-eq-ok (not (is_nonempty cfg.apps) && not cfg.control_api.enabled) app_required _
          h in
      let (reached, h₂) =
        >>-eq-ok
          (if cfg.control_api.enabled then validate_control_api go cfg.control_api else ok tt) _
          h₁ in
      let (built, h₃) = >>-eq-ok (from_apps (validate_apps go cfg.apps)) _ h₂ in
      let (timed, h₄) = >>-eq-ok (validate_server cfg.server) _ h₃ in
      let (inspected, h₅) =
        >>-eq-ok (if cfg.waf.enabled then validate_waf cfg.waf else ok tt) _ h₄ in
      let mode = refuse-eq-ok _ fail_mode_unknown h₅ in
      record {
        served = served_by (is_nonempty cfg.apps) cfg.control_api.enabled served;
        apps =
            validate_apps-IsBuildable go cfg.apps (from_apps-ok (validate_apps go cfg.apps) built);
        server = default_server-IsTimed raw.server timed;
        waf = λ e.
            default_waf-IsWafChecked raw.waf
              (asked_for cfg.waf.enabled (validate_waf cfg.waf) inspected e);
        control_api = λ e.
            validate_control_api-IsReachable cfg.control_api (
              asked_for cfg.control_api.enabled (validate_control_api go cfg.control_api) reached
                e);
        fail_mode = text_of_two cfg.redis.fail_mode "open" "closed" mode;
      }

  -- A configuration that LoadFile returns has an app or asks the control API; every app in it has an
  -- id, a hostname, an origin that the policy store accepts and a known mode; the server's timeouts and
  -- its header limit are positive; the inspection engine, where it is enabled, is known and has a
  -- positive body limit; the control API, where it is enabled, has an address, a key, a positive
  -- lifetime for the cache and a known behaviour on failure; and the behaviour on a failure of Redis is
  -- known.
  pub load_file-IsChecked :
      (read_file : String → Option String) (expand_env : String → String)
      (decode : String → Option Config) (path : String) (cfg : Config)
      → load_file go read_file expand_env decode path ≡ ok cfg
      → IsChecked cfg
  unfolding load_file
  load_file-IsChecked read_file expand_env decode path cfg h =
      let (data_text, _, h₁) = >>=-eq-ok (or_load file_unread (read_file path)) _ h in
      let (raw, _, h₂) = >>=-eq-ok (or_load yaml_malformed (decode (expand_env data_text))) _ h₁ in
      let (valid, h₃) = >>-eq-ok (validate go (apply_defaults raw)) _ h₂ in
      rw (← ok_injective h₃) (validate-IsChecked raw valid)
