-- ===== src/ControlApi/Routes/Invariant.antt =====
-- What the repository keeps, whatever requests come.
use bedem_waf.Common.{String, Bool, true, false, ◌==◌, Bool-cases, inl, inr, if◌then◌else◌}
use bedem_waf.Common.Result.{Result, ok, err}
use bedem_waf.Go.{Go}
use bedem_waf.ControlApi.{Parsers}
use bedem_waf.ControlApi.Models.{Repository}
use bedem_waf.ControlApi.Http.{ApiRequest, Context, Reply}
use bedem_waf.ControlApi.Handlers.{Decoders, EventStore}
use bedem_waf.ControlApi.Handlers.Kept
use bedem_waf.ControlApi.Handlers.Kept.{Keeps}
use bedem_waf.ControlApi.Access.{
  Server, tenant_of, authorized, require_auth, require_gateway_auth, require_tenant, in_context,
  with_limited_body, request_id_of,
}
use bedem_waf.ControlApi.Routes.{
  Route, healthz, readyz, metrics, other, list_tenants, create_tenant, list_apps, create_app,
  get_app, patch_app, list_policies, create_policy, get_active_policy, get_policy, patch_policy,
  publish_policy, get_policy_simulation_summary, list_managed_rule_sets, list_managed_rule_versions,
  activate_managed_rule_version, get_gateway_policy, list_events, get_event, admin_global,
  admin_tenant, dispatch, serve,
}

module _ (go : Go) (net : Parsers) (io : Decoders) {R : Type 0} (repo : Repository R)
    (store : EventStore R) (server : Server) (I : R → Type 0)
    (keeps : Keeps go net repo store I) where
  module _ (r : ApiRequest) (s : R) (h : I s) (ctx : Context) where
    if-kept :
        (b : Bool) (next refused : Reply × R)
        → I next.1
        → I refused.1
        → I (if b then next else refused).1
    if-kept true next refused k l = k
    if-kept false next refused k l = l

    global-kept :
        (next : Reply × R) → I next.1 → I (admin_global go net io repo store server r s ctx next).1
    unfolding admin_global require_auth
    global-kept next k = if-kept (authorized go server.admin_token r.headers) next _ k h

    tenant-kept :
        (next : Context → Reply × R)
        → ((c : Context) → I (next c).1)
        → I (require_tenant go ctx r s next).1
    unfolding require_tenant
    tenant-kept next k = in_context-kept (tenant_of go ctx r)
      where
        in_context-kept : (t : Result Reply String) → I (in_context go ctx s next t).1
        in_context-kept (ok t) = k (record ctx { tenant_id = t })
        in_context-kept (err reply) = h

    scoped-kept :
        (next : Context → Reply × R)
        → ((c : Context) → I (next c).1)
        → I (admin_tenant go net io repo store server r s ctx next).1
    unfolding admin_tenant require_auth
    scoped-kept next k =
        if-kept (authorized go server.admin_token r.headers) (require_tenant go ctx r s next) _
          (tenant-kept next k) h

    dispatch-kept : (route : Route) → I (dispatch go net io repo store server r s ctx route).1
    unfolding dispatch require_gateway_auth
    dispatch-kept healthz = h
    dispatch-kept metrics = h
    dispatch-kept other = h
    dispatch-kept readyz = Kept.readyz_kept go net io repo store I keeps ctx r s h
    dispatch-kept list_tenants =
        global-kept _ (Kept.list_tenants_kept go net io repo store I keeps ctx r s h)
    dispatch-kept create_tenant =
        global-kept _ (Kept.create_tenant_kept go net io repo store I keeps ctx r s h)
    dispatch-kept list_apps =
        scoped-kept _ (λ c. Kept.list_apps_kept go net io repo store I keeps c r s h)
    dispatch-kept create_app =
        scoped-kept _ (λ c. Kept.create_app_kept go net io repo store I keeps c r s h)
    dispatch-kept get_app =
        scoped-kept _ (λ c. Kept.get_app_kept go net io repo store I keeps c r s h)
    dispatch-kept patch_app =
        scoped-kept _ (λ c. Kept.patch_app_kept go net io repo store I keeps c r s h)
    dispatch-kept list_policies =
        scoped-kept _ (λ c. Kept.list_policies_kept go net io repo store I keeps c r s h)
    dispatch-kept create_policy =
        scoped-kept _ (λ c. Kept.create_policy_kept go net io repo store I keeps c r s h)
    dispatch-kept get_active_policy =
        scoped-kept _ (λ c. Kept.get_active_policy_kept go net io repo store I keeps c r s h)
    dispatch-kept get_policy =
        scoped-kept _ (λ c. Kept.get_policy_kept go net io repo store I keeps c r s h)
    dispatch-kept patch_policy =
        scoped-kept _ (λ c. Kept.patch_policy_kept go net io repo store I keeps c r s h)
    dispatch-kept publish_policy =
        scoped-kept _ (λ c. Kept.publish_policy_kept go net io repo store I keeps c r s h)
    dispatch-kept get_policy_simulation_summary =
        scoped-kept _
          (λ c. Kept.get_policy_simulation_summary_kept go net io repo store I keeps c r s h)
    dispatch-kept list_managed_rule_sets =
        global-kept _ (Kept.list_managed_rule_sets_kept go net io repo store I keeps ctx r s h)
    dispatch-kept list_managed_rule_versions =
        global-kept _ (Kept.list_managed_rule_versions_kept go net io repo store I keeps ctx r s h)
    dispatch-kept activate_managed_rule_version =
        global-kept _
          (Kept.activate_managed_rule_version_kept go net io repo store I keeps ctx r s h)
    dispatch-kept get_gateway_policy =
        if-kept (authorized go server.gateway_token r.headers) _ _
          (Kept.get_gateway_policy_kept go net io repo store I keeps ctx r s h) h
    dispatch-kept list_events =
        scoped-kept _ (λ c. Kept.list_events_kept go net io repo store I keeps c r s h)
    dispatch-kept get_event =
        scoped-kept _ (λ c. Kept.get_event_kept go net io repo store I keeps c r s h)

  -- An invariant of the repository and the event store holds behind every request if every operation
  -- keeps it, where those that store something need to keep it only for a valid request: a tenant or an
  -- app with a name, a slug and hostnames that the checks accept, a policy with a mode and a snapshot
  -- that the checks accept, and the publication of a policy only behind a valid stored snapshot.
  pub serve_keeps :
      (fresh : String) (route : Route) (r : ApiRequest) (s : R)
      → I s
      → I (serve go net io repo store server fresh route r s).1
  unfolding serve
  serve_keeps fresh route r s h = elim (Bool-cases (r.method == "OPTIONS")) [
    | inl e ↦ rw e h
    | inr e ↦ rw e (
        dispatch-kept (with_limited_body server.request_body_limit_bytes r) s h
          (record { request_id = request_id_of go fresh r; tenant_id = "" }) route)
  ]
