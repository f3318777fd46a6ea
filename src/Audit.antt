-- ===== src/Audit.antt =====
-- services/gateway/internal/audit: the event of a request and what becomes of it.
-- Timestamps and latencies are left out of the event.
pub mod Redaction
pub mod Dispatch
use bedem_waf.Common.{ℕ, String, Bool, Option, List}
use bedem_waf.Common.Int.{ℤ}

pub record RateLimit : Type 0 where
  pub limit : ℤ
  pub remaining : ℤ
  pub reset_at : ℕ
  pub rule_id : String
  pub action : String

pub record Event : Type 0 where
  pub request_id : String
  pub tenant_id : String
  pub app_id : String
  pub policy_id : String
  pub policy_version : String
  pub host : String
  pub client_ip : String
  pub country : String
  pub method : String
  pub path : String
  pub query_redacted : String
  pub user_agent : String
  pub action : String
  pub mode : String
  pub enforced : Bool
  pub would_block : Bool
  pub status : ℤ
  pub reason : String
  pub matched_rule_id : String
  pub matched_rule_name : String
  pub rule_group : String
  pub tags : List String
  pub anomaly_score : ℤ
  pub limit_info : Option RateLimit
  pub origin_status : ℤ
  pub body_preview : String
