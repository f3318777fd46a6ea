-- ===== src/Policy.antt =====
-- services/gateway/internal/policy/store.go: the types. The functions are in the children.
pub mod Host
pub mod Matching
pub mod Validation
pub mod Rules
pub mod Evaluation
pub mod Store
use bedem_waf.Common.{ℕ, String, Bool, List, Option}
use bedem_waf.Common.Int.{ℤ}
use bedem_waf.Go.{Url}
use bedem_waf.Go.Maps.{GoMap}
use bedem_waf.Go.Netip.{Addr, Prefix}
use bedem_waf.Config.{Condition}
use bedem_waf.Decision.{Action, Mode}

pub record RateLimitRule : Type 0 where
  pub id : String
  pub name : String
  pub enabled : Bool
  pub priority : ℤ
  pub match_expression : Option Condition
  pub key_type : String
  pub key_header : String
  pub limit : ℤ
  pub window_seconds : ℤ
  pub action : Action
  pub status_code : ℤ

pub record CustomRule : Type 0 where
  pub id : String
  pub name : String
  pub priority : ℤ
  pub enabled : Bool
  pub action : Action
  pub status_code : ℤ
  pub terminal_allow : Bool
  pub when : Condition

abbrev pub IpSets : Type 0
IpSets = GoMap (List Prefix)

pub record App : Type 0 where
  pub id : String
  pub tenant_id : String
  pub policy_id : String
  pub policy_version : String
  pub hostnames : List String
  pub origin : Url
  pub mode : Mode
  pub default_action : Action
  pub ip_blocklist : List Prefix
  pub ip_allowlist : List Prefix
  pub ip_sets : IpSets
  pub rate_limits : List RateLimitRule
  pub custom_rules : List CustomRule
  pub raw_origin_string : String

-- `Headers` is an `http.Header`, `Query` a `url.Values`.
pub record RequestContext : Type 0 where
  pub method : String
  pub path : String
  pub host : String
  pub headers : GoMap (List String)
  pub query : GoMap (List String)
  pub client_ip : Addr
