-- ===== src/ControlApi/Handlers/Kept.antt =====
-- The handlers and an invariant of the repository.
use bedem_waf.Common.{String, ◌≡◌, refl, Option, List}
use bedem_waf.Common.Result.{Result, ok, err, ◌>>=◌, >>=-eq-ok}
use bedem_waf.Go.{Go}
use bedem_waf.Go.Text.{to_lower, trim_space}
use bedem_waf.ControlApi.{Parsers, OriginUrl}
use bedem_waf.ControlApi.Snapshot.{validate_policy_snapshot}
use bedem_waf.ControlApi.Events.{SearchFilters, Event}
use bedem_waf.ControlApi.Events.Search.{SearchError}
use bedem_waf.ControlApi.Models.{
  Repository, CreateTenantRequest, CreateAppRequest, UpdateAppRequest, CreatePolicyRequest,
  UpdatePolicyRequest, DbError, Stored, Policy,
}
use bedem_waf.ControlApi.Http.{ApiRequest, Context, Reply, decode_json}
use bedem_waf.ControlApi.Handlers.{Decoders, EventStore, checked, answered}
use bedem_waf.ControlApi.Handlers.Apps
use bedem_waf.ControlApi.Handlers.Policies
use bedem_waf.ControlApi.Handlers.Searches
use bedem_waf.ControlApi.Handlers.Valid.{
  IsValidTenant, IsValidApp, IsValidPatch, IsValidPolicy, IsValidUpdate, good_snapshot,
  valid_tenant-IsValidTenant, validate_create_app-IsValidApp, validate_patch_app-IsValidPatch,
  valid_policy-IsValidPolicy, validate_update_policy-IsValidUpdate,
}

-- An invariant of the state that every operation keeps, those that store something on a valid request:
-- for the publication of a policy, that the snapshot which get_policy just returned is valid.
pub record Keeps {R : Type 0} (go : Go) (net : Parsers) (repo : Repository R) (store : EventStore R)
    (I : R → Type 0) : Type 0 where
  pub ping : (s : R) → I s → I (repo.ping s).1
  pub list_tenants : (s : R) → I s → I (repo.list_tenants s).1
  pub create_tenant :
      (s : R) (req : CreateTenantRequest)
      → IsValidTenant go net req
      → I s
      → I (repo.create_tenant s req).1
  pub list_apps : (s : R) (t : String) → I s → I (repo.list_apps s t).1
  pub create_app :
      (s : R) (req : CreateAppRequest) (u : OriginUrl)
      → IsValidApp go net req u
      → I s
      → I (repo.create_app s req u).1
  pub get_app : (s : R) (t id : String) → I s → I (repo.get_app s t id).1
  pub update_app :
      (s : R) (t id : String) (req : UpdateAppRequest) (u : Option OriginUrl)
      → IsValidPatch go net req
      → I s
      → I (repo.update_app s t id req u).1
  pub list_policies : (s : R) (t id : String) → I s → I (repo.list_policies_by_app s t id).1
  pub create_policy :
      (s : R) (t id : String) (req : CreatePolicyRequest)
      → IsValidPolicy go net req
      → I s
      → I (repo.create_policy s t id req).1
  pub get_policy : (s : R) (t id : String) → I s → I (repo.get_policy s t id).1
  pub update_policy :
      (s : R) (t id : String) (req : UpdatePolicyRequest)
      → IsValidUpdate go net req
      → I s
      → I (repo.update_policy s t id req).1
  pub publish_policy :
      (s s' : R) (t id : String) (p : Policy)
      → repo.get_policy s t id ≡ (ok p, s')
      → validate_policy_snapshot go net p.snapshot ≡ ok tt
      → I s'
      → I (repo.publish_policy s' t id).1
  pub get_active_policy : (s : R) (t id : String) → I s → I (repo.get_active_policy_by_app s t id).1
  pub get_gateway_policy :
      (s : R) (host : String) → I s → I (repo.get_gateway_policy_by_hostname s host).1
  pub list_rule_sets : (s : R) → I s → I (repo.list_managed_rule_sets s).1
  pub list_rule_versions : (s : R) (id : String) → I s → I (repo.list_managed_rule_versions s id).1
  pub activate :
      (s : R) (id version : String) → I s → I (repo.activate_managed_rule_version s id version).1
  pub search : (s : R) (f : SearchFilters) → I s → I (store.search s f).1
  pub get_event : (s : R) (t id : String) → I s → I (store.get_by_request_id s t id).1

module _ {R : Type 0} (I : R → Type 0) where
  answered-kept :
      {A : Type 0} (bad : DbError → Reply) (good : A → Reply) (m : Stored R A)
      → I m.1
      → I (answered bad good m).1
  answered-kept bad good (ok a, s) h = h
  answered-kept bad good (err e, s) h = h

  checked-kept :
      {A : Type 0} (m : Result Reply A) (s : R) (next : A → Reply × R)
      → I s
      → ((a : A) → m ≡ ok a → I (next a).1)
      → I (checked m s next).1
  unfolding checked
  checked-kept (ok a) s next h f = f a refl
  checked-kept (err e) s next h f = h

  searched-kept :
      (ctx : Context) (good : List Event → Reply) (m : Result SearchError (List Event) × R)
      → I m.1
      → I (Searches.searched ctx good m).1
  searched-kept ctx good (ok found, s) h = h
  searched-kept ctx good (err e, s) h = h

  event-kept :
      (ctx : Context) (m : Result SearchError Event × R) → I m.1 → I (Searches.event_answer ctx m).1
  event-kept ctx (ok e, s) h = h
  event-kept ctx (err e, s) h = h

module _ (go : Go) (net : Parsers) (io : Decoders) {R : Type 0} (repo : Repository R)
    (store : EventStore R) (I : R → Type 0) (keeps : Keeps go net repo store I) where
  module _ (c : Context) (r : ApiRequest) (s : R) (h : I s) where
    pub readyz_kept : I (Apps.readyz go net io repo c r s).1
    unfolding Apps.readyz
    readyz_kept = answered-kept I _ _ _ (keeps.ping s h)

    pub list_tenants_kept : I (Apps.list_tenants go net io repo c r s).1
    unfolding Apps.list_tenants
    list_tenants_kept = answered-kept I _ _ _ (keeps.list_tenants s h)

    pub list_apps_kept : I (Apps.list_apps go net io repo c r s).1
    unfolding Apps.list_apps
    list_apps_kept = answered-kept I _ _ _ (keeps.list_apps s c.tenant_id h)

    pub get_app_kept : I (Apps.get_app go net io repo c r s).1
    unfolding Apps.get_app
    get_app_kept = answered-kept I _ _ _ (keeps.get_app s c.tenant_id (r.path_value "app_id") h)

    pub list_managed_rule_sets_kept : I (Apps.list_managed_rule_sets go net io repo c r s).1
    unfolding Apps.list_managed_rule_sets
    list_managed_rule_sets_kept = answered-kept I _ _ _ (keeps.list_rule_sets s h)

    pub list_managed_rule_versions_kept : I (Apps.list_managed_rule_versions go net io repo c r s).1
    unfolding Apps.list_managed_rule_versions
    list_managed_rule_versions_kept =
        answered-kept I _ _ _ (keeps.list_rule_versions s (r.path_value "id") h)

    pub activate_managed_rule_version_kept :
        I (Apps.activate_managed_rule_version go net io repo c r s).1
    unfolding Apps.activate_managed_rule_version
    activate_managed_rule_version_kept =
        answered-kept I _ _ _ (keeps.activate s (r.path_value "id") (r.path_value "version_id") h)

    pub list_policies_kept : I (Policies.list_policies go net io repo c r s).1
    unfolding Policies.list_policies
    list_policies_kept =
        answered-kept I _ _ _ (keeps.list_policies s c.tenant_id (r.path_value "app_id") h)

    pub get_policy_kept : I (Policies.get_policy go net io repo c r s).1
    unfolding Policies.get_policy
    get_policy_kept =
        answered-kept I _ _ _ (keeps.get_policy s c.tenant_id (r.path_value "policy_id") h)

    pub get_active_policy_kept : I (Policies.get_active_policy go net io repo c r s).1
    unfolding Policies.get_active_policy
    get_active_policy_kept =
        answered-kept I _ _ _ (keeps.get_active_policy s c.tenant_id (r.path_value "app_id") h)

    pub create_tenant_kept : I (Apps.create_tenant go net io repo c r s).1
    unfolding Apps.create_tenant
    create_tenant_kept = checked-kept I _ s _ h (λ req e.
        let (raw, _, valid) = >>=-eq-ok (decode_json io.create_tenant_request c r) _ e in
        answered-kept I _ _ _
          (keeps.create_tenant s req (valid_tenant-IsValidTenant go net c raw req valid) h))

    pub create_app_kept : I (Apps.create_app go net io repo c r s).1
    unfolding Apps.create_app
    create_app_kept = checked-kept I _ s _ h (λ req e.
        let (raw, _, valid) =
          >>=-eq-ok (decode_json io.create_app_request c r >>= Apps.in_tenant go net c) _ e in
        answered-kept I _ _ _ (
          keeps.create_app s req.0 req.1 (validate_create_app-IsValidApp go net c raw req valid) h))

    pub patch_app_kept : I (Apps.patch_app go net io repo c r s).1
    unfolding Apps.patch_app
    patch_app_kept = checked-kept I _ s _ h (λ req e.
        let (raw, _, valid) = >>=-eq-ok (decode_json io.update_app_request c r) _ e in
        answered-kept I _ _ _ (
          keeps.update_app s c.tenant_id (r.path_value "app_id") req.0 req.1
            (validate_patch_app-IsValidPatch go net c raw req valid) h))

    pub create_policy_kept : I (Policies.create_policy go net io repo c r s).1
    unfolding Policies.create_policy
    create_policy_kept = checked-kept I _ s _ h (λ req e.
        let (raw, _, valid) = >>=-eq-ok (decode_json io.create_policy_request c r) _ e in
        answered-kept I _ _ _ (
          keeps.create_policy s c.tenant_id (r.path_value "app_id") req
            (valid_policy-IsValidPolicy go net c raw req valid) h))

    pub patch_policy_kept : I (Policies.patch_policy go net io repo c r s).1
    unfolding Policies.patch_policy
    patch_policy_kept = checked-kept I _ s _ h (λ req e.
        let (raw, _, valid) = >>=-eq-ok (decode_json io.update_policy_request c r) _ e in
        answered-kept I _ _ _ (
          keeps.update_policy s c.tenant_id (r.path_value "policy_id") req
            (validate_update_policy-IsValidUpdate go net c raw req valid) h))

    publish_found-kept :
        (found : Stored R Policy)
        → repo.get_policy s c.tenant_id (r.path_value "policy_id") ≡ found
        → I found.1
        → I (Policies.publish_found go net io repo c r s found).1
    unfolding Policies.publish_found
    publish_found-kept (err e, s') same k = k
    publish_found-kept (ok p, s') same k = checked-kept I _ s' _ k (λ x e. answered-kept I _ _ _ (
        keeps.publish_policy s s' c.tenant_id (r.path_value "policy_id") p same
          (good_snapshot go net c "invalid_policy" _ e) k))

    pub publish_policy_kept : I (Policies.publish_policy go net io repo c r s).1
    unfolding Policies.publish_policy
    publish_policy_kept =
        publish_found-kept _ refl (keeps.get_policy s c.tenant_id (r.path_value "policy_id") h)

    pub get_gateway_policy_kept : I (Policies.get_gateway_policy go net io repo c r s).1
    unfolding Policies.get_gateway_policy
    get_gateway_policy_kept = checked-kept I _ s _ h (λ x e.
        answered-kept I _ _ _
          (keeps.get_gateway_policy s (trim_space go (to_lower go (r.path_value "hostname"))) h))

    pub get_policy_simulation_summary_kept :
        I (Searches.get_policy_simulation_summary go io store c r s).1
    unfolding Searches.get_policy_simulation_summary
    get_policy_simulation_summary_kept =
        checked-kept I _ s _ h (λ f e. searched-kept I c _ _ (keeps.search s f h))

    pub list_events_kept : I (Searches.list_events go io store c r s).1
    unfolding Searches.list_events
    list_events_kept = checked-kept I _ s _ h (λ f e. searched-kept I c _ _ (keeps.search s f h))

    pub get_event_kept : I (Searches.get_event go io store c r s).1
    unfolding Searches.get_event
    get_event_kept = event-kept I c _ (keeps.get_event s c.tenant_id (r.path_value "event_id") h)
