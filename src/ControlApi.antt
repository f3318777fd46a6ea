-- ===== src/ControlApi.antt =====
-- services/control-api/internal: the API that tenants manage their apps and policies with, and that
-- the gateway fetches its policies from.
pub mod Events
pub mod Models
pub mod Http
pub mod Database
pub mod Handlers
pub mod Access
pub mod Routes
pub mod Names
pub mod Snapshot
use bedem_waf.Common.{String, Bool, Option, List}
use bedem_waf.Common.Int.{ℤ}
use bedem_waf.Go.Maps.{GoMap}
use bedem_waf.Config.{Condition}

-- The parts of a policy snapshot that the control API reads. A condition has the fields of the
-- gateway's.
abbrev pub PolicyConditionSnapshot : Type 0
PolicyConditionSnapshot = Condition

pub record PolicyCustomRuleSnapshot : Type 0 where
  pub id : String
  pub name : String
  pub action : String
  pub when : PolicyConditionSnapshot

pub record PolicyRateLimitRuleSnapshot : Type 0 where
  pub id : String
  pub name : String
  pub match_condition : PolicyConditionSnapshot
  pub key_type : String
  pub key_header : String
  pub limit : ℤ
  pub window_seconds : ℤ
  pub action : String

pub record PolicySnapshot : Type 0 where
  pub mode : String
  pub rules : List (GoMap String)
  pub ip_blocks : List String
  pub ip_sets : GoMap (List String)
  pub custom_rules : List PolicyCustomRuleSnapshot
  pub rate_limits : List PolicyRateLimitRuleSnapshot

-- A `url.URL` with what `Hostname`, `Port` and the query and fragment fields give.
pub record OriginUrl : Type 0 where
  pub scheme : String
  pub hostname : String
  pub port : String
  pub raw_query : String
  pub fragment : String

-- The parsers of `net/url`, `net` and `encoding/json` that only the control API calls. A
-- `json.RawMessage` is its text.
pub record Parsers : Type 0 where
  -- url.Parse
  pub parse_full_url : String → Option OriginUrl
  -- net.LookupPort with "tcp" finds a port
  pub lookup_port : String → Bool
  -- json.Valid
  pub json_valid : String → Bool
  -- json.Unmarshal into a policySnapshot
  pub decode_snapshot : String → Option PolicySnapshot
