-- ===== src/ControlApi/Models.antt =====
-- services/control-api/internal/models/models.go, and the interface of the repository in
-- services/control-api/internal/db/db.go. A `json.RawMessage` is its text.
use bedem_waf.Common.{String, Bool, Option, List}
use bedem_waf.Common.Int.{ℤ}
use bedem_waf.Common.Result.{Result}
use bedem_waf.ControlApi.{OriginUrl}
use bedem_waf.ControlApi.Events.{Time}

pub record Tenant : Type 0 where
  pub id : String
  pub name : String
  pub slug : String
  pub status : String
  pub metadata : String
  pub created_at : Time
  pub updated_at : Time

pub record CreateTenantRequest : Type 0 where
  pub name : String
  pub slug : String
  pub metadata : String

pub record Origin : Type 0 where
  pub id : String
  pub name : String
  pub scheme : String
  pub host : String
  pub port : ℤ
  pub url : String

pub record App : Type 0 where
  pub id : String
  pub tenant_id : String
  pub name : String
  pub slug : String
  pub hostnames : List String
  pub status : String
  pub origins : List Origin
  pub metadata : String
  pub created_at : Time
  pub updated_at : Time

pub record CreateAppRequest : Type 0 where
  pub tenant_id : String
  pub name : String
  pub slug : String
  pub hostnames : List String
  pub origin_url : String
  pub metadata : String

pub record UpdateAppRequest : Type 0 where
  pub name : Option String
  pub hostnames : List String
  pub origin_url : Option String
  pub status : Option String
  pub metadata : String

pub record Policy : Type 0 where
  pub id : String
  pub tenant_id : String
  pub app_id : String
  pub name : String
  pub mode : String
  pub enabled : Bool
  pub active_version_id : String
  pub snapshot : String
  pub created_at : Time
  pub updated_at : Time

pub record CreatePolicyRequest : Type 0 where
  pub name : String
  pub mode : String
  pub snapshot : String

pub record UpdatePolicyRequest : Type 0 where
  pub name : Option String
  pub mode : Option String
  pub enabled : Option Bool
  pub snapshot : String
  pub expected_updated_at : Time

pub record PublishPolicyResponse : Type 0 where
  pub policy_id : String
  pub policy_version_id : String
  pub version : ℤ
  pub published_at : Time

pub record GatewayPolicy : Type 0 where
  pub tenant_id : String
  pub app_id : String
  pub policy_id : String
  pub policy_version_id : String
  pub mode : String
  pub origin : Origin
  pub ip_sets : String
  pub custom_rules : String
  pub rate_limits : String
  pub waf : String
  pub published_at : Time

pub record ManagedRuleSet : Type 0 where
  pub id : String
  pub name : String
  pub provider : String
  pub source : String
  pub description : String
  pub local_path : String
  pub enabled : Bool
  pub metadata : String
  pub created_at : Time
  pub updated_at : Time

pub record ManagedRuleVersion : Type 0 where
  pub id : String
  pub managed_rule_set_id : String
  pub version : String
  pub source_uri : String
  pub local_path : String
  pub checksum_sha256 : String
  pub ruleset_snapshot : String
  pub released_at : Option Time
  pub created_at : Time

pub record ActivateManagedRuleVersionResponse : Type 0 where
  pub managed_rule_set_id : String
  pub managed_rule_version_id : String
  pub status : String
  pub message : String

-- ErrNotFound, ErrConflict, and any other error.
pub data DbError : Type 0 where
  not_found conflict db_failed : DbError

abbrev pub Stored : Type 0 → Type 0 → Type 0
Stored R A = Result DbError A × R

-- The operations that the handlers call, on a state of their own.
pub record Repository (R : Type 0) : Type 0 where
  pub ping : R → Stored R (Unit {0})
  pub list_tenants : R → Stored R (List Tenant)
  pub create_tenant : R → CreateTenantRequest → Stored R Tenant
  pub list_apps : R → String → Stored R (List App)
  pub create_app : R → CreateAppRequest → OriginUrl → Stored R App
  pub get_app : R → String → String → Stored R App
  pub update_app : R → String → String → UpdateAppRequest → Option OriginUrl → Stored R App
  pub list_policies_by_app : R → String → String → Stored R (List Policy)
  pub create_policy : R → String → String → CreatePolicyRequest → Stored R Policy
  pub get_policy : R → String → String → Stored R Policy
  pub update_policy : R → String → String → UpdatePolicyRequest → Stored R Policy
  pub publish_policy : R → String → String → Stored R PublishPolicyResponse
  pub get_active_policy_by_app : R → String → String → Stored R GatewayPolicy
  pub get_gateway_policy_by_hostname : R → String → Stored R GatewayPolicy
  pub list_managed_rule_sets : R → Stored R (List ManagedRuleSet)
  pub list_managed_rule_versions : R → String → Stored R (List ManagedRuleVersion)
  pub activate_managed_rule_version :
      R → String → String → Stored R ActivateManagedRuleVersionResponse
