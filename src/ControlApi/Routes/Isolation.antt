-- ===== src/ControlApi/Routes/Isolation.antt =====
-- What the requests of a tenant read and change.
use bedem_waf.Common.{String, Bool, true, false, ◌≡◌, refl, ap, Option, Bool-cases, inl, inr}
use bedem_waf.Common.Result.{Result, ok, err}
use bedem_waf.Go.{Go}
use bedem_waf.Go.Text.{trim_space}
use bedem_waf.ControlApi.{Parsers, OriginUrl}
use bedem_waf.ControlApi.Events.{SearchFilters}
use bedem_waf.ControlApi.Models.{
  Repository, CreateAppRequest, UpdateAppRequest, CreatePolicyRequest, UpdatePolicyRequest, Stored,
  Policy,
}
use bedem_waf.ControlApi.Http.{ApiRequest, Context, Reply, write_json, app, decode_json}
use bedem_waf.ControlApi.Handlers.{Decoders, EventStore, checked, answered, hide_error}
use bedem_waf.ControlApi.Handlers.Apps
use bedem_waf.ControlApi.Handlers.Policies
use bedem_waf.ControlApi.Handlers.Searches
use bedem_waf.ControlApi.Handlers.Tenancy.{
  tenant_of-trimmed, created_in_tenant, parse_simulation_filters-tenant, parse_event_filters-tenant,
}
use bedem_waf.ControlApi.Access.{Server, tenant_of, authorized, require_auth, require_tenant}
use bedem_waf.ControlApi.Routes.{
  Route, healthz, readyz, metrics, list_tenants, create_tenant, list_managed_rule_sets,
  list_managed_rule_versions, activate_managed_rule_version, get_gateway_policy, other,
  admin_tenant, dispatch, list_apps, create_app, get_app, patch_app, list_policies, create_policy,
  get_active_policy, get_policy, patch_policy, publish_policy, get_policy_simulation_summary,
  list_events, get_event,
}

-- Two repositories that do the same for one tenant.
pub record AgreeFor {R : Type 0} (tenant : String) (here there : Repository R) : Type 0 where
  pub list_apps : (s : R) → here.list_apps s tenant ≡ there.list_apps s tenant
  pub create_app :
      (s : R) (req : CreateAppRequest) (u : OriginUrl)
      → req.tenant_id ≡ tenant
      → here.create_app s req u ≡ there.create_app s req u
  pub get_app : (s : R) (id : String) → here.get_app s tenant id ≡ there.get_app s tenant id
  pub update_app :
      (s : R) (id : String) (req : UpdateAppRequest) (u : Option OriginUrl)
      → here.update_app s tenant id req u ≡ there.update_app s tenant id req u
  pub list_policies :
      (s : R) (id : String)
      → here.list_policies_by_app s tenant id ≡ there.list_policies_by_app s tenant id
  pub create_policy :
      (s : R) (id : String) (req : CreatePolicyRequest)
      → here.create_policy s tenant id req ≡ there.create_policy s tenant id req
  pub get_policy :
      (s : R) (id : String) → here.get_policy s tenant id ≡ there.get_policy s tenant id
  pub update_policy :
      (s : R) (id : String) (req : UpdatePolicyRequest)
      → here.update_policy s tenant id req ≡ there.update_policy s tenant id req
  pub publish_policy :
      (s : R) (id : String) → here.publish_policy s tenant id ≡ there.publish_policy s tenant id
  pub get_active_policy :
      (s : R) (id : String)
      → here.get_active_policy_by_app s tenant id ≡ there.get_active_policy_by_app s tenant id

-- Two event stores that do the same for one tenant.
pub record AgreeOnEvents {R : Type 0} (tenant : String) (here there : EventStore R) : Type 0 where
  pub search :
      (s : R) (f : SearchFilters) → f.tenant_id ≡ tenant → here.search s f ≡ there.search s f
  pub get_by_request_id :
      (s : R) (id : String)
      → here.get_by_request_id s tenant id ≡ there.get_by_request_id s tenant id

-- What runs behind a check may use what the check has established.
pub checked-cong :
    {R A : Type 0} (m : Result Reply A) (s : R) (f g : A → Reply × R)
    → ((a : A) → m ≡ ok a → f a ≡ g a)
    → checked m s f ≡ checked m s g
unfolding checked
checked-cong (ok a) s f g h = h a refl
checked-cong (err e) s f g h = refl

-- The routes behind requireTenant.
abbrev pub is_scoped : Route → Bool
is_scoped healthz = false
is_scoped readyz = false
is_scoped metrics = false
is_scoped list_tenants = false
is_scoped create_tenant = false
is_scoped list_managed_rule_sets = false
is_scoped list_managed_rule_versions = false
is_scoped activate_managed_rule_version = false
is_scoped get_gateway_policy = false
is_scoped other = false
is_scoped _ = true

module _ (go : Go) (net : Parsers) (io : Decoders) {R : Type 0} (here there : Repository R)
    (events_here events_there : EventStore R) (t : String) (same : AgreeFor t here there)
    (same_events : AgreeOnEvents t events_here events_there) where
  module _ (ctx : Context) (plain : trim_space go t ≡ t) (r : ApiRequest) (s : R) where
    abbrev c : Context
    c = record ctx { tenant_id = t }

    list_apps_same : Apps.list_apps go net io here c r s ≡ Apps.list_apps go net io there c r s
    unfolding Apps.list_apps
    list_apps_same = rw (same.list_apps s) refl

    get_app_same : Apps.get_app go net io here c r s ≡ Apps.get_app go net io there c r s
    unfolding Apps.get_app
    get_app_same = rw (same.get_app s (r.path_value "app_id")) refl

    create_app_same : Apps.create_app go net io here c r s ≡ Apps.create_app go net io there c r s
    unfolding Apps.create_app
    create_app_same = checked-cong _ s _ _ (λ req e.
        ap (answered (hide_error c) (λ a. write_json 201 (app a))) (
          same.create_app s req.0 req.1
            (created_in_tenant go net c (decode_json io.create_app_request c r) req plain e)))

    patch_app_same : Apps.patch_app go net io here c r s ≡ Apps.patch_app go net io there c r s
    unfolding Apps.patch_app
    patch_app_same =
        checked-cong _ s _ _
          (λ req e. rw (same.update_app s (r.path_value "app_id") req.0 req.1) refl)

    list_policies_same :
        Policies.list_policies go net io here c r s ≡ Policies.list_policies go net io there c r s
    unfolding Policies.list_policies
    list_policies_same = rw (same.list_policies s (r.path_value "app_id")) refl

    create_policy_same :
        Policies.create_policy go net io here c r s ≡ Policies.create_policy go net io there c r s
    unfolding Policies.create_policy
    create_policy_same =
        checked-cong _ s _ _ (λ req e. rw (same.create_policy s (r.path_value "app_id") req) refl)

    get_policy_same :
        Policies.get_policy go net io here c r s ≡ Policies.get_policy go net io there c r s
    unfolding Policies.get_policy
    get_policy_same = rw (same.get_policy s (r.path_value "policy_id")) refl

    patch_policy_same :
        Policies.patch_policy go net io here c r s ≡ Policies.patch_policy go net io there c r s
    unfolding Policies.patch_policy
    patch_policy_same =
        checked-cong _ s _ _
          (λ req e. rw (same.update_policy s (r.path_value "policy_id") req) refl)

    publish_found_same :
        (found : Stored R Policy)
        → Policies.publish_found go net io here c r s found
          ≡ Policies.publish_found go net io there c r s found
    unfolding Policies.publish_found
    publish_found_same (err e, s') = refl
    publish_found_same (ok p, s') =
        checked-cong _ s' _ _ (λ x e. rw (same.publish_policy s' (r.path_value "policy_id")) refl)

    publish_policy_same :
        Policies.publish_policy go net io here c r s ≡ Policies.publish_policy go net io there c r s
    unfolding Policies.publish_policy
    publish_policy_same =
        rw (same.get_policy s (r.path_value "policy_id"))
          (publish_found_same (there.get_policy s t (r.path_value "policy_id")))

    get_active_policy_same :
        Policies.get_active_policy go net io here c r s
        ≡ Policies.get_active_policy go net io there c r s
    unfolding Policies.get_active_policy
    get_active_policy_same = rw (same.get_active_policy s (r.path_value "app_id")) refl

    get_policy_simulation_summary_same :
        Searches.get_policy_simulation_summary go io events_here c r s
        ≡ Searches.get_policy_simulation_summary go io events_there c r s
    unfolding Searches.get_policy_simulation_summary
    get_policy_simulation_summary_same = checked-cong _ s _ _ (λ f e.
        rw
          (same_events.search s f
            (parse_simulation_filters-tenant go io c (r.path_value "policy_id") r.query f e))
          refl)

    list_events_same :
        Searches.list_events go io events_here c r s ≡ Searches.list_events go io events_there c r s
    unfolding Searches.list_events
    list_events_same =
        checked-cong _ s _ _
          (λ f e. rw (same_events.search s f (parse_event_filters-tenant go io c r.query f e)) refl)

    get_event_same :
        Searches.get_event go io events_here c r s ≡ Searches.get_event go io events_there c r s
    unfolding Searches.get_event
    get_event_same = rw (same_events.get_by_request_id s (r.path_value "event_id")) refl

  module _ (server : Server) (r : ApiRequest) (s : R) (ctx : Context)
      (asked : tenant_of go ctx r ≡ ok t) where
    admin_tenant-cong :
        (f g : Context → Reply × R)
        → f (record ctx { tenant_id = t }) ≡ g (record ctx { tenant_id = t })
        → admin_tenant go net io here events_here server r s ctx f
          ≡ admin_tenant go net io there events_there server r s ctx g
    unfolding admin_tenant require_auth require_tenant
    admin_tenant-cong f g e = elim (Bool-cases (authorized go server.admin_token r.headers)) [
      | inl h ↦ rw (h, asked) e
      | inr h ↦ rw h refl
    ]

    plain : trim_space go t ≡ t
    plain = tenant_of-trimmed go ctx r t asked

    -- Tenant isolation. On the routes behind requireTenant, the answer to a request of a tenant and the
    -- state behind it are the same for any two repositories and event stores that do the same for that
    -- tenant, whatever they do for others: every operation that the handlers call is given the tenant of
    -- the request.
    pub dispatch_isolated :
        (route : Route)
        → is_scoped route ≡ true
        → dispatch go net io here events_here server r s ctx route
          ≡ dispatch go net io there events_there server r s ctx route
    unfolding dispatch
    dispatch_isolated healthz e = cc
    dispatch_isolated readyz e = cc
    dispatch_isolated metrics e = cc
    dispatch_isolated list_tenants e = cc
    dispatch_isolated create_tenant e = cc
    dispatch_isolated list_managed_rule_sets e = cc
    dispatch_isolated list_managed_rule_versions e = cc
    dispatch_isolated activate_managed_rule_version e = cc
    dispatch_isolated get_gateway_policy e = cc
    dispatch_isolated other e = cc
    dispatch_isolated list_apps e = admin_tenant-cong _ _ (list_apps_same ctx plain r s)
    dispatch_isolated create_app e = admin_tenant-cong _ _ (create_app_same ctx plain r s)
    dispatch_isolated get_app e = admin_tenant-cong _ _ (get_app_same ctx plain r s)
    dispatch_isolated patch_app e = admin_tenant-cong _ _ (patch_app_same ctx plain r s)
    dispatch_isolated list_policies e = admin_tenant-cong _ _ (list_policies_same ctx plain r s)
    dispatch_isolated create_policy e = admin_tenant-cong _ _ (create_policy_same ctx plain r s)
    dispatch_isolated get_active_policy e =
        admin_tenant-cong _ _ (get_active_policy_same ctx plain r s)
    dispatch_isolated get_policy e = admin_tenant-cong _ _ (get_policy_same ctx plain r s)
    dispatch_isolated patch_policy e = admin_tenant-cong _ _ (patch_policy_same ctx plain r s)
    dispatch_isolated publish_policy e = admin_tenant-cong _ _ (publish_policy_same ctx plain r s)
    dispatch_isolated get_policy_simulation_summary e =
        admin_tenant-cong _ _ (get_policy_simulation_summary_same ctx plain r s)
    dispatch_isolated list_events e = admin_tenant-cong _ _ (list_events_same ctx plain r s)
    dispatch_isolated get_event e = admin_tenant-cong _ _ (get_event_same ctx plain r s)
