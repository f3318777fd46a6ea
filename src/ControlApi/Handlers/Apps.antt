-- ===== src/ControlApi/Handlers/Apps.antt =====
-- The handlers of tenants, apps and managed rules in server.go, and the probes.
use bedem_waf.Common.{
  String, Bool, false, not, ◌&&◌, ◌||◌, Option, none, some, is_nonempty, ◌==◌, if◌then◌else◌,
}
use bedem_waf.Common.Result.{Result, ok, err, ◌>>=◌, ◌>>◌, refuse}
use bedem_waf.Go.{Go}
use bedem_waf.Go.Text.{trim_space}
use bedem_waf.ControlApi.{Parsers, OriginUrl}
use bedem_waf.ControlApi.Names.{validate_slug, validate_hostnames, parse_origin_url, validate_json}
use bedem_waf.ControlApi.Models.{
  CreateTenantRequest, CreateAppRequest, UpdateAppRequest, Repository,
}
use bedem_waf.ControlApi.Http.{
  ApiRequest, Context, Reply, text, status_text, tenants, tenant, apps, app, managed_rule_sets,
  versions, activation, write_json, write_error, bad_request, decode_json,
}
use bedem_waf.ControlApi.Handlers.{
  Decoders, handle_read_error, hide_error, answered, checked, or_bad_name,
}

-- A pointer to a text, without the space around it.
unfoldable pub trimmed_name : Go → Option String → Option String
unfolding trim_space
trimmed_name go none = none
trimmed_name go (some s) = some (trim_space go s)

-- A name that is given must not be blank: `req.Name` is trimmed already.
abbrev pub is_blank_name : Option String → Bool
is_blank_name none = false
is_blank_name (some s) = s == ""

-- `status != nil && *status != "active" && *status != "disabled"`
abbrev pub bad_app_status : Option String → Bool
bad_app_status none = false
bad_app_status (some s) = not (s == "active") && not (s == "disabled")

module _ (go : Go) (net : Parsers) (ctx : Context) where
  -- The part of createTenant in front of the repository.
  unfoldable pub valid_tenant : CreateTenantRequest → Result Reply CreateTenantRequest
  unfolding trim_space validate_slug validate_json
  valid_tenant raw = do
    let name = trim_space go raw.name
    let slug = trim_space go raw.slug
    refuse (name == "") (bad_request ctx (text "name is required"))
    or_bad_name ctx (validate_slug "slug" slug)
    or_bad_name ctx (validate_json net raw.metadata "metadata")
    ok (record raw { name = name; slug = slug })

  -- createApp up to validateCreateApp: the tenant of the request is that of its context.
  unfoldable pub in_tenant : CreateAppRequest → Result Reply CreateAppRequest
  unfolding trim_space
  in_tenant raw =
      let named = trim_space go raw.tenant_id in
      if named == ""
      then ok (record raw { tenant_id = ctx.tenant_id })
      else if not (named == ctx.tenant_id)
      then err (bad_request ctx (text "tenant_id must match tenant context"))
      else ok (record raw { tenant_id = named })

  unfoldable pub validate_create_app :
      CreateAppRequest → Result Reply (CreateAppRequest × OriginUrl)
  unfolding trim_space validate_slug validate_hostnames parse_origin_url validate_json
  validate_create_app raw = do
    let tenant_id = trim_space go raw.tenant_id
    let name = trim_space go raw.name
    let slug = trim_space go raw.slug
    refuse (tenant_id == "" || name == "")
        (bad_request ctx (text "tenant_id and name are required"))
    or_bad_name ctx (validate_slug "slug" slug)
    or_bad_name ctx (validate_hostnames go raw.hostnames)
    origin ← or_bad_name ctx (parse_origin_url net go raw.origin_url)
    or_bad_name ctx (validate_json net raw.metadata "metadata")
    ok (record raw { tenant_id = tenant_id; name = name; slug = slug }, origin)

  -- The origin of a change, if it has one.
  unfoldable pub patched_origin : Option String → Result Reply (Option OriginUrl)
  unfolding parse_origin_url
  patched_origin none = ok none
  patched_origin (some url) =
      or_bad_name ctx (parse_origin_url net go url) >>= λ origin. ok (some origin)

  unfoldable pub validate_patch_app :
      UpdateAppRequest → Result Reply (UpdateAppRequest × Option OriginUrl)
  unfolding trimmed_name validate_hostnames patched_origin validate_json
  validate_patch_app raw = do
    let name = trimmed_name go raw.name
    refuse (is_blank_name name) (bad_request ctx (text "name cannot be empty"))
    if is_nonempty raw.hostnames
        then or_bad_name ctx (validate_hostnames go raw.hostnames)
        else ok tt
    refuse (bad_app_status raw.status) (bad_request ctx (text "status must be active or disabled"))
    origin ← patched_origin raw.origin_url
    or_bad_name ctx (validate_json net raw.metadata "metadata")
    ok (record raw { name = name }, origin)

module _ (go : Go) (net : Parsers) (io : Decoders) {R : Type 0} (repo : Repository R)
    (ctx : Context) (r : ApiRequest) (s : R) where
  unfoldable pub readyz : Reply × R
  readyz =
      answered (λ e. write_error ctx 503 "not_ready" (text "database is unavailable"))
        (λ x. write_json 200 (status_text "ready")) (repo.ping s)

  unfoldable pub list_tenants : Reply × R
  list_tenants =
      answered (hide_error ctx) (λ found. write_json 200 (tenants found)) (repo.list_tenants s)

  unfoldable pub create_tenant : Reply × R
  unfolding valid_tenant
  create_tenant =
      checked (decode_json io.create_tenant_request ctx r >>= valid_tenant go net ctx) s (λ req.
        answered (hide_error ctx) (λ t. write_json 201 (tenant t)) (repo.create_tenant s req))

  unfoldable pub list_apps : Reply × R
  list_apps =
      answered (hide_error ctx) (λ found. write_json 200 (apps found))
        (repo.list_apps s ctx.tenant_id)

  unfoldable pub create_app : Reply × R
  unfolding in_tenant validate_create_app
  create_app =
      checked
        (decode_json io.create_app_request ctx r
          >>= in_tenant go net ctx
          >>= validate_create_app go net ctx)
        s
        (λ req.
          answered (hide_error ctx) (λ a. write_json 201 (app a)) (repo.create_app s req.0 req.1))

  unfoldable pub get_app : Reply × R
  get_app =
      answered (handle_read_error ctx) (λ a. write_json 200 (app a))
        (repo.get_app s ctx.tenant_id (r.path_value "app_id"))

  unfoldable pub patch_app : Reply × R
  unfolding validate_patch_app
  patch_app =
      checked (decode_json io.update_app_request ctx r >>= validate_patch_app go net ctx) s (λ req.
        answered (handle_read_error ctx) (λ a. write_json 200 (app a))
          (repo.update_app s ctx.tenant_id (r.path_value "app_id") req.0 req.1))

  unfoldable pub list_managed_rule_sets : Reply × R
  list_managed_rule_sets =
      answered (hide_error ctx) (λ sets. write_json 200 (managed_rule_sets sets))
        (repo.list_managed_rule_sets s)

  unfoldable pub list_managed_rule_versions : Reply × R
  list_managed_rule_versions =
      answered (hide_error ctx) (λ found. write_json 200 (versions found))
        (repo.list_managed_rule_versions s (r.path_value "id"))

  unfoldable pub activate_managed_rule_version : Reply × R
  activate_managed_rule_version =
      answered (handle_read_error ctx) (λ done. write_json 202 (activation done))
        (repo.activate_managed_rule_version s (r.path_value "id") (r.path_value "version_id"))
