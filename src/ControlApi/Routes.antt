-- ===== src/ControlApi/Routes.antt =====
-- Routes of services/control-api/internal/httpapi/server.go: which guards stand in front of which
-- handler, and the order of the middleware. The multiplexer of net/http finds the route of a request.
pub mod Guards
pub mod Isolation
pub mod Invariant
use bedem_waf.Common.{ℕ, String, List, ◌++◌, [], ◌∷◌, ◌==◌, if◌then◌else◌}
use bedem_waf.Go.{Go}
use bedem_waf.ControlApi.{Parsers}
use bedem_waf.ControlApi.Models.{Repository}
use bedem_waf.ControlApi.Http.{
  ApiRequest, Context, Reply, text, status_text, metrics_text, nothing, write_json, write_error,
}
use bedem_waf.ControlApi.Handlers.{Decoders, EventStore}
use bedem_waf.ControlApi.Handlers.Apps
use bedem_waf.ControlApi.Handlers.Policies
use bedem_waf.ControlApi.Handlers.Searches
use bedem_waf.ControlApi.Access.{
  Server, Response, require_auth, require_gateway_auth, require_tenant, request_id_of, cors_headers,
  secure_headers, with_limited_body,
}

-- The patterns of the multiplexer, by the names of their handlers; `other` is the pattern "/".
pub data Route : Type 0 where
  healthz : Route
  readyz : Route
  metrics : Route
  list_tenants : Route
  create_tenant : Route
  list_apps : Route
  create_app : Route
  get_app : Route
  patch_app : Route
  list_policies : Route
  create_policy : Route
  get_active_policy : Route
  get_policy : Route
  patch_policy : Route
  publish_policy : Route
  get_policy_simulation_summary : Route
  list_managed_rule_sets : Route
  list_managed_rule_versions : Route
  activate_managed_rule_version : Route
  get_gateway_policy : Route
  list_events : Route
  get_event : Route
  other : Route

module _ (go : Go) (net : Parsers) (io : Decoders) {R : Type 0} (repo : Repository R)
    (store : EventStore R) (server : Server) (r : ApiRequest) (s : R) where
  -- adminGlobal
  unfoldable pub admin_global : Context → Reply × R → Reply × R
  unfolding require_auth
  admin_global ctx next = require_auth go ctx r s server.admin_token next

  -- adminTenant
  unfoldable pub admin_tenant : Context → (Context → Reply × R) → Reply × R
  unfolding require_auth require_tenant
  admin_tenant ctx next =
      require_auth go ctx r s server.admin_token (require_tenant go ctx r s next)

  -- A call of the handler of the route.
  unfoldable pub dispatch : Context → Route → Reply × R
  dispatch ctx healthz = (write_json 200 (status_text "ok"), s)
  dispatch ctx readyz = Apps.readyz go net io repo ctx r s
  dispatch ctx metrics = (write_json 200 metrics_text, s)
  dispatch ctx list_tenants = admin_global ctx (Apps.list_tenants go net io repo ctx r s)
  dispatch ctx create_tenant = admin_global ctx (Apps.create_tenant go net io repo ctx r s)
  dispatch ctx list_apps = admin_tenant ctx (λ c. Apps.list_apps go net io repo c r s)
  dispatch ctx create_app = admin_tenant ctx (λ c. Apps.create_app go net io repo c r s)
  dispatch ctx get_app = admin_tenant ctx (λ c. Apps.get_app go net io repo c r s)
  dispatch ctx patch_app = admin_tenant ctx (λ c. Apps.patch_app go net io repo c r s)
  dispatch ctx list_policies = admin_tenant ctx (λ c. Policies.list_policies go net io repo c r s)
  dispatch ctx create_policy = admin_tenant ctx (λ c. Policies.create_policy go net io repo c r s)
  dispatch ctx get_active_policy =
      admin_tenant ctx (λ c. Policies.get_active_policy go net io repo c r s)
  dispatch ctx get_policy = admin_tenant ctx (λ c. Policies.get_policy go net io repo c r s)
  dispatch ctx patch_policy = admin_tenant ctx (λ c. Policies.patch_policy go net io repo c r s)
  dispatch ctx publish_policy = admin_tenant ctx (λ c. Policies.publish_policy go net io repo c r s)
  dispatch ctx get_policy_simulation_summary =
      admin_tenant ctx (λ c. Searches.get_policy_simulation_summary go io store c r s)
  dispatch ctx list_managed_rule_sets =
      admin_global ctx (Apps.list_managed_rule_sets go net io repo ctx r s)
  dispatch ctx list_managed_rule_versions =
      admin_global ctx (Apps.list_managed_rule_versions go net io repo ctx r s)
  dispatch ctx activate_managed_rule_version =
      admin_global ctx (Apps.activate_managed_rule_version go net io repo ctx r s)
  dispatch ctx get_gateway_policy =
      require_gateway_auth go ctx r s server.gateway_token
        (Policies.get_gateway_policy go net io repo ctx r s)
  dispatch ctx list_events = admin_tenant ctx (λ c. Searches.list_events go io store c r s)
  dispatch ctx get_event = admin_tenant ctx (λ c. Searches.get_event go io store c r s)
  dispatch ctx other = (write_error ctx 404 "not_found" (text "route not found"), s)

module _ (go : Go) (net : Parsers) (io : Decoders) {R : Type 0} (repo : Repository R)
    (store : EventStore R) (server : Server) where
  -- The middleware around the multiplexer; `fresh` is what newRequestID returns.
  unfoldable pub serve : String → Route → ApiRequest → R → Response × R
  unfolding request_id_of cors_headers with_limited_body dispatch
  serve fresh route r s =
      let id = request_id_of go fresh r in
      let ctx : Context = record { request_id = id; tenant_id = "" } in
      let front = ("X-Request-ID", id) ∷ cors_headers server r in
      if r.method == "OPTIONS"
      then (record { status = 204; payload = nothing; headers = front }, s)
      else let limited = with_limited_body server.request_body_limit_bytes r in
        let (reply, s') = dispatch go net io repo store server limited s ctx route in
        (
          record {
            status = reply.status;
            payload = reply.payload;
            headers = front ++ secure_headers;
          },
          s',
        )
