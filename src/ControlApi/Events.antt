-- ===== src/ControlApi/Events.antt =====
-- services/control-api/internal/events/events.go: the types. A time is the number of nanoseconds
-- since Go's zero time, so `IsZero` is the test for 0 and `After` is the order.
pub mod Search
pub mod Summary
use bedem_waf.Common.{ℕ, String, Bool, List}
use bedem_waf.Common.Int.{ℤ}

abbrev pub Time : Type 0
Time = ℕ

pub record SearchFilters : Type 0 where
  pub tenant_id : String
  pub app_id : String
  pub policy_id : String
  pub host : String
  pub action : String
  pub client_ip : String
  pub matched_rule_id : String
  pub from : Time
  pub to : Time
  pub limit : ℤ

pub record Event : Type 0 where
  pub timestamp : Time
  pub request_id : String
  pub tenant_id : String
  pub app_id : String
  pub policy_id : String
  pub policy_version_id : String
  pub host : String
  pub client_ip : String
  pub method : String
  pub path : String
  pub action : String
  pub mode : String
  pub enforced : Bool
  pub would_block : Bool
  pub status : ℕ
  pub reason : String
  pub matched_rule_id : String
  pub matched_rule_name : String
  pub rule_group : String
  pub tags : List String
  pub anomaly_score : ℤ
  pub user_agent : String
  pub latency_ms : ℕ
  pub origin_status : ℕ
  pub origin_latency_ms : ℕ

pub record SimulationRuleSummary : Type 0 where
  pub rule_id : String
  pub rule_name : String
  pub would_block_count : ℕ
  pub unique_ips : ℕ
  pub top_paths : List String
  pub sample_request_ids : List String
