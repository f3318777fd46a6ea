-- ===== src/Tests/ControlSamples.antt =====
-- Sample data of the control API. The repository keeps the snapshots that it was given.
use bedem_waf.Common.{String, true, false, none, some, List, [], ◌∷◌, ◌==◌, if◌then◌else◌}
use bedem_waf.Common.Int.{pos}
use bedem_waf.Common.Result.{ok, err}
use bedem_waf.PolicyClient.{decoded}
use bedem_waf.PolicyClient as Client
use bedem_waf.ControlApi.{Parsers, PolicySnapshot}
use bedem_waf.ControlApi.Events.{SearchFilters, Event}
use bedem_waf.ControlApi.Events.Search.{event_not_found}
use bedem_waf.ControlApi.Models.{
  Repository, Policy, CreatePolicyRequest, not_found, db_failed, Stored,
}
use bedem_waf.ControlApi.Http.{ApiRequest, Context, not_json, one_value}
use bedem_waf.ControlApi.Handlers.{Decoders, EventStore}
use bedem_waf.ControlApi.Access.{Server}
use bedem_waf.ControlApi.Snapshot.Deployable.{custom_snapshot_of, limit_snapshot_of}
use bedem_waf.Tests.Samples.{admin_rule_config, limit_config}

abbrev pub shop_snapshot : PolicySnapshot
shop_snapshot = record {
  mode = "block";
  rules = (("action", "block") ∷ []) ∷ [];
  ip_blocks = "203.0.113.0/24" ∷ [];
  ip_sets = ("office", "203.0.113.0/24" ∷ []) ∷ [];
  custom_rules = custom_snapshot_of admin_rule_config ∷ [];
  rate_limits = limit_snapshot_of limit_config ∷ [];
}

abbrev pub net : Parsers
net = record {
  parse_full_url = λ s.
      some
        (record { scheme = "http"; hostname = "origin"; port = ""; raw_query = ""; fragment = "" });
  lookup_port = λ s. true;
  json_valid = λ s. true;
  decode_snapshot = λ s. if s == "{shop}" then some shop_snapshot else none;
}

abbrev pub shop_policy : Client.GatewayPolicy
shop_policy = record {
  tenant_id = "acme";
  app_id = "shop";
  policy_id = "p1";
  policy_version_id = "v1";
  mode = "block";
  origin = record { url = "http://origin"; scheme = "http"; host = "origin"; port = pos 80 };
  ip_sets = decoded shop_snapshot.ip_sets;
  custom_rules = decoded (admin_rule_config ∷ []);
  rate_limits = decoded (limit_config ∷ []);
}

abbrev pub new_policy : CreatePolicyRequest
new_policy = record { name = " main "; mode = ""; snapshot = "{shop}" }

abbrev pub io : Decoders
io = record {
  create_tenant_request = λ b. not_json;
  create_app_request = λ b. not_json;
  update_app_request = λ b. not_json;
  create_policy_request = λ b. one_value new_policy;
  update_policy_request = λ b. not_json;
  parse_time = λ s. none;
  atoi = λ s. none;
}

abbrev pub stored_policy : String → Policy
stored_policy snapshot = record {
  id = "p1";
  tenant_id = "acme";
  app_id = "shop";
  name = "main";
  mode = "count";
  enabled = true;
  active_version_id = "";
  snapshot = snapshot;
  created_at = 1;
  updated_at = 1;
}

-- What it does for other tenants than acme is the argument.
abbrev pub repo : Stored (List String) Policy → Repository (List String)
repo elsewhere = record {
  ping = λ s. (ok tt, s);
  list_tenants = λ s. (ok [], s);
  create_tenant = λ s req. (err db_failed, s);
  list_apps = λ s t. (ok [], s);
  create_app = λ s req u. (err db_failed, s);
  get_app = λ s t id. (err not_found, s);
  update_app = λ s t id req u. (err not_found, s);
  list_policies_by_app = λ s t id. (ok [], s);
  create_policy = λ s t id req.
      if t == "acme" then (ok (stored_policy req.snapshot), req.snapshot ∷ s) else elsewhere;
  get_policy = λ s t id. (err not_found, s);
  update_policy = λ s t id req. (err not_found, s);
  publish_policy = λ s t id. (err not_found, s);
  get_active_policy_by_app = λ s t id. (err not_found, s);
  get_gateway_policy_by_hostname = λ s host. (err not_found, s);
  list_managed_rule_sets = λ s. (ok [], s);
  list_managed_rule_versions = λ s id. (ok [], s);
  activate_managed_rule_version = λ s id version. (err not_found, s);
}

abbrev pub here : Repository (List String)
here = repo (err db_failed, [])

abbrev pub event_store : EventStore (List String)
event_store = record {
  search = λ s f. (ok [], s);
  get_by_request_id = λ s t id. (err event_not_found, s);
}

abbrev pub server : Server
server = record {
  admin_token = "secret";
  gateway_token = "edge";
  request_body_limit_bytes = pos 1048576;
  cors_allowed_origins = "http://localhost:3000" ∷ [];
}

abbrev pub request_with : String → ApiRequest
request_with authorization = record {
  method = "POST";
  headers = ("Authorization", authorization ∷ []) ∷ ("X-Bedem-Tenant-Id", "acme" ∷ []) ∷ [];
  query = [];
  path_value = λ name. "shop";
  body = record { text = ""; limits = [] };
}

abbrev pub empty_context : Context
empty_context = record { request_id = "id"; tenant_id = "" }

abbrev pub acme_filters : SearchFilters
acme_filters = record {
  tenant_id = "acme";
  app_id = "";
  policy_id = "";
  host = "shop.test";
  action = "block";
  client_ip = "";
  matched_rule_id = "";
  from = 10;
  to = 20;
  limit = pos 50;
}

abbrev pub blocked_event : String → String → Event
blocked_event request rule = record {
  timestamp = 1;
  request_id = request;
  tenant_id = "acme";
  app_id = "shop";
  policy_id = "p1";
  policy_version_id = "v1";
  host = "shop.test";
  client_ip = "203.0.113.9";
  method = "GET";
  path = "/admin";
  action = "count";
  mode = "count";
  enforced = false;
  would_block = true;
  status = 200;
  reason = "";
  matched_rule_id = rule;
  matched_rule_name = "admin";
  rule_group = "";
  tags = [];
  anomaly_score = pos 0;
  user_agent = "";
  latency_ms = 1;
  origin_status = 200;
  origin_latency_ms = 1;
}
