-- ===== src/ControlApi/Handlers/Policies.antt =====
-- The handlers of policies in server.go.
use bedem_waf.Common.{String, Option, none, some, ◌==◌, eqb, if◌then◌else◌}
use bedem_waf.Common.Result.{Result, ok, err, ◌>>=◌, ◌>>◌, refuse}
use bedem_waf.Go.{Go}
use bedem_waf.Go.Text.{to_lower, trim_space}
use bedem_waf.ControlApi.{Parsers}
use bedem_waf.ControlApi.Names.{NameError, validate_mode, validate_dns_name}
use bedem_waf.ControlApi.Snapshot.{validate_policy_snapshot}
use bedem_waf.ControlApi.Models.{
  CreatePolicyRequest, UpdatePolicyRequest, Policy, Repository, Stored,
}
use bedem_waf.ControlApi.Http.{
  ApiRequest, Context, Reply, text, policies, policy, published, gateway_policy, write_json,
  bad_request, decode_json,
}
use bedem_waf.ControlApi.Handlers.{
  Decoders, handle_read_error, hide_error, answered, checked, or_bad_name, or_bad_snapshot,
}
use bedem_waf.ControlApi.Handlers.Apps.{trimmed_name, is_blank_name}

module _ (go : Go) (net : Parsers) (ctx : Context) where
  -- The part of createPolicy in front of the repository.
  unfoldable pub valid_policy : CreatePolicyRequest → Result Reply CreatePolicyRequest
  unfolding trim_space validate_mode validate_policy_snapshot
  valid_policy raw = do
    let name = trim_space go raw.name
    let mode = if raw.mode == "" then "count" else raw.mode
    refuse (name == "") (bad_request ctx (text "name is required"))
    or_bad_name ctx (validate_mode mode)
    or_bad_snapshot ctx "invalid_request" (validate_policy_snapshot go net raw.snapshot)
    ok (record raw { name = name; mode = mode })

  unfoldable pub patched_mode : Option String → Result Reply (Unit {0})
  unfolding validate_mode
  patched_mode none = ok tt
  patched_mode (some mode) = or_bad_name ctx (validate_mode mode)

  unfoldable pub validate_update_policy : UpdatePolicyRequest → Result Reply UpdatePolicyRequest
  unfolding trimmed_name patched_mode validate_policy_snapshot
  validate_update_policy raw = do
    let name = trimmed_name go raw.name
    refuse (eqb raw.expected_updated_at 0)
        (bad_request ctx (text "expected_updated_at is required for optimistic locking"))
    refuse (is_blank_name name) (bad_request ctx (text "name cannot be empty"))
    patched_mode raw.mode
    or_bad_snapshot ctx "invalid_request" (validate_policy_snapshot go net raw.snapshot)
    ok (record raw { name = name })

abbrev pub or_invalid_hostname : Context → Result NameError (Unit {0}) → Result Reply (Unit {0})
or_invalid_hostname ctx (ok x) = ok tt
or_invalid_hostname ctx (err e) = err (bad_request ctx (text "hostname is invalid"))

module _ (go : Go) (net : Parsers) (io : Decoders) {R : Type 0} (repo : Repository R)
    (ctx : Context) (r : ApiRequest) (s : R) where
  unfoldable pub list_policies : Reply × R
  list_policies =
      answered (hide_error ctx) (λ found. write_json 200 (policies found))
        (repo.list_policies_by_app s ctx.tenant_id (r.path_value "app_id"))

  unfoldable pub create_policy : Reply × R
  unfolding valid_policy
  create_policy =
      checked (decode_json io.create_policy_request ctx r >>= valid_policy go net ctx) s (λ req.
        answered (handle_read_error ctx) (λ p. write_json 201 (policy p))
          (repo.create_policy s ctx.tenant_id (r.path_value "app_id") req))

  unfoldable pub get_policy : Reply × R
  get_policy =
      answered (handle_read_error ctx) (λ p. write_json 200 (policy p))
        (repo.get_policy s ctx.tenant_id (r.path_value "policy_id"))

  unfoldable pub patch_policy : Reply × R
  unfolding validate_update_policy
  patch_policy =
      checked (decode_json io.update_policy_request ctx r >>= validate_update_policy go net ctx) s
        (λ req.
          answered (handle_read_error ctx) (λ p. write_json 200 (policy p))
            (repo.update_policy s ctx.tenant_id (r.path_value "policy_id") req))

  -- publishPolicy behind the call of GetPolicy.
  unfoldable pub publish_found : Stored R Policy → Reply × R
  unfolding validate_policy_snapshot
  publish_found (err e, s') = (handle_read_error ctx e, s')
  publish_found (ok p, s') =
      checked (or_bad_snapshot ctx "invalid_policy" (validate_policy_snapshot go net p.snapshot)) s'
        (λ x.
          answered (handle_read_error ctx) (λ done. write_json 201 (published done))
            (repo.publish_policy s' ctx.tenant_id (r.path_value "policy_id")))

  unfoldable pub publish_policy : Reply × R
  unfolding publish_found
  publish_policy = publish_found (repo.get_policy s ctx.tenant_id (r.path_value "policy_id"))

  unfoldable pub get_active_policy : Reply × R
  get_active_policy =
      answered (handle_read_error ctx) (λ p. write_json 200 (gateway_policy p))
        (repo.get_active_policy_by_app s ctx.tenant_id (r.path_value "app_id"))

  unfoldable pub get_gateway_policy : Reply × R
  unfolding trim_space to_lower validate_dns_name
  get_gateway_policy =
      let hostname = trim_space go (to_lower go (r.path_value "hostname")) in
      checked (or_invalid_hostname ctx (validate_dns_name hostname)) s (λ x.
        answered (handle_read_error ctx) (λ p. write_json 200 (gateway_policy p))
          (repo.get_gateway_policy_by_hostname s hostname))
