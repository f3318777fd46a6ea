-- ===== src/ControlApi/Database/Policies.antt =====
-- CreatePolicy, GetPolicy, UpdatePolicy, PublishPolicy and compileGatewayPolicy of db.go.
use bedem_waf.Common.{String, Option, none, some, [], ◌∷◌, ◌==◌, eqb, if◌then◌else◌}
use bedem_waf.Common.Result.{Result, ok, err}
use bedem_waf.Go.{Go}
use bedem_waf.Go.Strings.{concat}
use bedem_waf.ControlApi.Events.{Time}
use bedem_waf.ControlApi.Models.{
  Origin, Policy, CreatePolicyRequest, UpdatePolicyRequest, PublishPolicyResponse, GatewayPolicy,
  App, DbError, conflict, db_failed, Stored,
}
use bedem_waf.ControlApi.Database.{
  Database, Codecs, PolicyDraft, Queried, Step, ◌>>=◌, ◌>>◌, done, failed, run_row, run,
  from_option, transact, or_missing, default_raw, metadata_with_snapshot,
}

-- The value behind a pointer, or the old one.
abbrev pub or_old : {A : Type 0} → Option A → A → A
or_old none old = old
or_old (some new) old = new

-- The policy with the changes of a request.
unfoldable pub changed_policy : UpdatePolicyRequest → Policy → Policy
changed_policy req current = record current {
  name = or_old req.name current.name;
  mode = or_old req.mode current.mode;
  enabled = or_old req.enabled current.enabled;
  snapshot = if req.snapshot == "" then current.snapshot else req.snapshot;
}

-- The optimistic lock.
unfoldable pub unchanged_since : {T : Type 0} → Time → Time → Step T (Unit {0})
unfolding done failed
unchanged_since updated_at expected = if eqb updated_at expected then done tt else failed conflict

abbrev pub no_draft : PolicyDraft
no_draft = record { mode = ""; ip_sets = ""; custom_rules = ""; rate_limits = ""; waf = "" }

unfoldable pub decode_draft : Codecs → String → Option PolicyDraft
decode_draft codecs snapshot =
    if snapshot == "" then some no_draft else codecs.decode_draft snapshot

module _ (go : Go) (codecs : Codecs) {D T : Type 0} (db : Database D T) where
  -- getPrimaryOrigin
  unfoldable pub get_primary_origin : String → Step T Origin
  unfolding concat
  get_primary_origin app_id = do
    origin ← run_row (λ t. db.select_primary_origin t app_id)
    done (record origin {
      url = concat (origin.scheme ∷ "://" ∷ origin.host ∷ ":" ∷ go.itoa origin.port ∷ []);
    })

  -- The value that compileGatewayPolicy returns; `published_at` is set by its caller.
  unfoldable pub compiled_policy : Policy → String → Origin → PolicyDraft → GatewayPolicy
  unfolding default_raw
  compiled_policy p version_id origin draft = record {
    tenant_id = p.tenant_id;
    app_id = p.app_id;
    policy_id = p.id;
    policy_version_id = version_id;
    mode = if draft.mode == "" then p.mode else draft.mode;
    origin = origin;
    ip_sets = default_raw draft.ip_sets "{}";
    custom_rules = default_raw draft.custom_rules "[]";
    rate_limits = default_raw draft.rate_limits "[]";
    waf = default_raw draft.waf "{}";
    published_at = 0;
  }

  unfoldable pub compile_gateway_policy : Policy → String → Step T GatewayPolicy
  unfolding get_primary_origin decode_draft
  compile_gateway_policy p version_id = do
    origin ← get_primary_origin p.app_id
    draft ← from_option (decode_draft codecs p.snapshot)
    done (compiled_policy p version_id origin draft)

  -- UpdatePolicy
  unfoldable pub update_steps : String → String → UpdatePolicyRequest → Step T Policy
  update_steps tenant_id id req = do
    current ← run_row (λ t. db.select_policy_for_update t tenant_id id)
    unchanged_since current.updated_at req.expected_updated_at
    let changed = changed_policy req current
    metadata ← from_option (metadata_with_snapshot codecs changed.snapshot)
    run_row (λ t.
        db.update_policy_row t id changed.name changed.mode changed.enabled metadata tenant_id)

  unfoldable pub update_policy : D → String → String → UpdatePolicyRequest → Stored D Policy
  update_policy d tenant_id id req = transact db d (update_steps tenant_id id req)

  -- PublishPolicy
  unfoldable pub publish_steps : String → String → Step T PublishPolicyResponse
  publish_steps tenant_id id = do
    p ← run_row (λ t. db.select_policy_for_update t tenant_id id)
    version ← run (λ t. db.next_version t id)
    new ← run (λ t. db.new_version_id t)
    compiled ← compile_gateway_policy p new.0
    snapshot ← from_option (codecs.encode_gateway_policy (record compiled { published_at = new.1 }))
    row ← run (λ t. db.insert_version t new.0 p version snapshot (go.sha256_hex snapshot) new.1)
    run (λ t. db.activate_version t p.id row.0 tenant_id)
    run (λ t. db.upsert_deployment t p row.0)
    done (record {
      policy_id = p.id;
      policy_version_id = row.0;
      version = version;
      published_at = row.1;
    })

  unfoldable pub publish_policy : D → String → String → Stored D PublishPolicyResponse
  publish_policy d tenant_id id = transact db d (publish_steps tenant_id id)

  unfoldable pub get_policy : D → String → String → Stored D Policy
  get_policy d tenant_id id = (or_missing (db.select_policy d tenant_id id), d)

  abbrev pub with_snapshot : String → Queried Policy × D → Stored D Policy
  with_snapshot snapshot (ok p, d) = (ok (record p { snapshot = snapshot }), d)
  with_snapshot snapshot (err e, d) = (err db_failed, d)

  abbrev pub inserted_policy :
      D → App → String → CreatePolicyRequest → String → Option String → Stored D Policy
  inserted_policy d app app_id req snapshot none = (err db_failed, d)
  inserted_policy d app app_id req snapshot (some metadata) =
      with_snapshot snapshot (db.insert_policy d app.tenant_id app_id req.name req.mode metadata)

  abbrev pub created_policy :
      D → String → CreatePolicyRequest → Result DbError App → Stored D Policy
  created_policy d app_id req (err e) = (err e, d)
  created_policy d app_id req (ok app) =
      let snapshot = if req.snapshot == "" then "{}" else req.snapshot in
      inserted_policy d app app_id req snapshot (metadata_with_snapshot codecs snapshot)
