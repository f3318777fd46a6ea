-- ===== src/ControlApi/Handlers/Valid.antt =====
-- What a request has that reaches the repository.
use bedem_waf.Common.{
  String, false, ◌||◌, ◌≡◌, refl, ap, arith, Option, none, some, List, ◌==◌, eqb, is_nonempty,
  Bool-cases, inl, inr, if◌then◌else◌,
}
use bedem_waf.Common.Result.{Result, ok, err, >>=-eq-ok, >>-eq-ok, refuse->>-eq-ok, ok_injective}
use bedem_waf.Go.{Go}
use bedem_waf.Go.Text.{trim_space}
use bedem_waf.ControlApi.{Parsers, OriginUrl}
use bedem_waf.ControlApi.Names.{
  NameError, validate_slug, validate_hostnames, parse_origin_url, validate_json, validate_mode,
}
use bedem_waf.ControlApi.Snapshot.{SnapshotError, validate_policy_snapshot}
use bedem_waf.ControlApi.Models.{
  CreateTenantRequest, CreateAppRequest, UpdateAppRequest, CreatePolicyRequest, UpdatePolicyRequest,
}
use bedem_waf.ControlApi.Http.{Context, text, bad_request}
use bedem_waf.ControlApi.Handlers.{or_bad_name, or_bad_snapshot}
use bedem_waf.ControlApi.Handlers.Apps.{
  trimmed_name, is_blank_name, bad_app_status, patched_origin, valid_tenant, validate_create_app,
  validate_patch_app,
}
use bedem_waf.ControlApi.Handlers.Policies.{patched_mode, valid_policy, validate_update_policy}

-- A mode that is given is one of the two.
abbrev pub IsValidMode : Option String → Type 0
IsValidMode none = Unit
IsValidMode (some mode) = validate_mode mode ≡ ok tt

module _ (go : Go) (net : Parsers) where
  pub record IsValidTenant (req : CreateTenantRequest) : Type 0 where
    pub named : (req.name == "") ≡ false
    pub slug : validate_slug "slug" req.slug ≡ ok tt
    pub metadata : validate_json net req.metadata "metadata" ≡ ok tt

  pub record IsValidApp (req : CreateAppRequest) (u : OriginUrl) : Type 0 where
    pub owned : (req.tenant_id == "") ≡ false
    pub named : (req.name == "") ≡ false
    pub slug : validate_slug "slug" req.slug ≡ ok tt
    pub hostnames : validate_hostnames go req.hostnames ≡ ok tt
    pub origin : parse_origin_url net go req.origin_url ≡ ok u
    pub metadata : validate_json net req.metadata "metadata" ≡ ok tt

  -- A change may leave out the name, the hostnames and the status.
  pub record IsValidPatch (req : UpdateAppRequest) : Type 0 where
    pub named : is_blank_name req.name ≡ false
    pub hostnames :
        (if is_nonempty req.hostnames then validate_hostnames go req.hostnames else ok tt) ≡ ok tt
    pub status : bad_app_status req.status ≡ false
    pub metadata : validate_json net req.metadata "metadata" ≡ ok tt

  pub record IsValidPolicy (req : CreatePolicyRequest) : Type 0 where
    pub named : (req.name == "") ≡ false
    pub mode : validate_mode req.mode ≡ ok tt
    pub snapshot : validate_policy_snapshot go net req.snapshot ≡ ok tt

  pub record IsValidUpdate (req : UpdatePolicyRequest) : Type 0 where
    pub named : is_blank_name req.name ≡ false
    pub dated : eqb req.expected_updated_at 0 ≡ false
    pub mode : IsValidMode req.mode
    pub snapshot : validate_policy_snapshot go net req.snapshot ≡ ok tt

  module _ (ctx : Context) where
    good_name : {A : Type 0} (m : Result NameError A) (a : A) → or_bad_name ctx m ≡ ok a → m ≡ ok a
    good_name (ok b) a h = ap ok (ok_injective h)
    good_name (err e) a h = cc

    pub good_snapshot :
        (code : String) (m : Result SnapshotError (Unit {0}))
        → or_bad_snapshot ctx code m ≡ ok tt
        → m ≡ ok tt
    good_snapshot code (ok tt) h = refl
    good_snapshot code (err e) h = cc

    pub valid_tenant-IsValidTenant :
        (raw req : CreateTenantRequest) → valid_tenant go net ctx raw ≡ ok req → IsValidTenant req
    unfolding valid_tenant
    valid_tenant-IsValidTenant raw req h =
        let (named, h₁) =
          refuse->>-eq-ok (trim_space go raw.name == "") (bad_request ctx (text "name is required"))
            _ h in
        let (slug, h₂) =
          >>-eq-ok (or_bad_name ctx (validate_slug "slug" (trim_space go raw.slug))) _ h₁ in
        let (json, h₃) =
          >>-eq-ok (or_bad_name ctx (validate_json net raw.metadata "metadata")) _ h₂ in
        let same = ok_injective h₃ in
        rw (← same)
          (record { named = named; slug = good_name _ tt slug; metadata = good_name _ tt json })

    pub validate_create_app-IsValidApp :
        (raw : CreateAppRequest) (req : CreateAppRequest × OriginUrl)
        → validate_create_app go net ctx raw ≡ ok req
        → IsValidApp req.0 req.1
    unfolding validate_create_app
    validate_create_app-IsValidApp raw req h =
        let (given, h₁) =
          refuse->>-eq-ok (trim_space go raw.tenant_id == "" || trim_space go raw.name == "")
            (bad_request ctx (text "tenant_id and name are required")) _ h in
        let (slug, h₂) =
          >>-eq-ok (or_bad_name ctx (validate_slug "slug" (trim_space go raw.slug))) _ h₁ in
        let (hosts, h₃) = >>-eq-ok (or_bad_name ctx (validate_hostnames go raw.hostnames)) _ h₂ in
        let (origin, parsed, h₄) =
          >>=-eq-ok (or_bad_name ctx (parse_origin_url net go raw.origin_url)) _ h₃ in
        let (json, h₅) =
          >>-eq-ok (or_bad_name ctx (validate_json net raw.metadata "metadata")) _ h₄ in
        let same = ok_injective h₅ in
        rw (← same) (record {
          owned = ground (arith, given);
          named = ground (arith, given);
          slug = good_name _ tt slug;
          hostnames = good_name _ tt hosts;
          origin = good_name _ origin parsed;
          metadata = good_name _ tt json;
        })

    patched_hostnames :
        (hosts : List String)
        → (if is_nonempty hosts then or_bad_name ctx (validate_hostnames go hosts) else ok tt)
          ≡ ok tt
        → (if is_nonempty hosts then validate_hostnames go hosts else ok tt) ≡ ok tt
    patched_hostnames hosts h = elim (Bool-cases (is_nonempty hosts)) [
      | inl e ↦ rw e (good_name _ tt (rw e at h))
      | inr e ↦ rw e refl
    ]

    pub validate_patch_app-IsValidPatch :
        (raw : UpdateAppRequest) (req : UpdateAppRequest × Option OriginUrl)
        → validate_patch_app go net ctx raw ≡ ok req
        → IsValidPatch req.0
    unfolding validate_patch_app
    validate_patch_app-IsValidPatch raw req h =
        let (named, h₁) =
          refuse->>-eq-ok (is_blank_name (trimmed_name go raw.name))
            (bad_request ctx (text "name cannot be empty")) _ h in
        let (hosts, h₂) =
          >>-eq-ok
            (if is_nonempty raw.hostnames
              then or_bad_name ctx (validate_hostnames go raw.hostnames)
              else ok tt)
            _ h₁ in
        let (status, h₃) =
          refuse->>-eq-ok (bad_app_status raw.status)
            (bad_request ctx (text "status must be active or disabled")) _ h₂ in
        let (origin, _, h₄) = >>=-eq-ok (patched_origin go net ctx raw.origin_url) _ h₃ in
        let (json, h₅) =
          >>-eq-ok (or_bad_name ctx (validate_json net raw.metadata "metadata")) _ h₄ in
        let same = ok_injective h₅ in
        rw (← same) (record {
          named = named;
          hostnames = patched_hostnames raw.hostnames hosts;
          status = status;
          metadata = good_name _ tt json;
        })

    pub valid_policy-IsValidPolicy :
        (raw req : CreatePolicyRequest) → valid_policy go net ctx raw ≡ ok req → IsValidPolicy req
    unfolding valid_policy
    valid_policy-IsValidPolicy raw req h =
        let mode = if raw.mode == "" then "count" else raw.mode in
        let (named, h₁) =
          refuse->>-eq-ok (trim_space go raw.name == "") (bad_request ctx (text "name is required"))
            _ h in
        let (known, h₂) = >>-eq-ok (or_bad_name ctx (validate_mode mode)) _ h₁ in
        let (snapshot, h₃) =
          >>-eq-ok
            (or_bad_snapshot ctx "invalid_request" (validate_policy_snapshot go net raw.snapshot)) _
            h₂ in
        let same = ok_injective h₃ in
        rw (← same) (record {
          named = named;
          mode = good_name _ tt known;
          snapshot = good_snapshot "invalid_request" _ snapshot;
        })

    patched_mode-IsValidMode :
        (mode : Option String) → patched_mode go net ctx mode ≡ ok tt → IsValidMode mode
    unfolding patched_mode
    patched_mode-IsValidMode none h = tt
    patched_mode-IsValidMode (some mode) h = good_name _ tt h

    pub validate_update_policy-IsValidUpdate :
        (raw req : UpdatePolicyRequest)
        → validate_update_policy go net ctx raw ≡ ok req
        → IsValidUpdate req
    unfolding validate_update_policy
    validate_update_policy-IsValidUpdate raw req h =
        let (dated, h₁) =
          refuse->>-eq-ok (eqb raw.expected_updated_at 0)
            (bad_request ctx (text "expected_updated_at is required for optimistic locking")) _ h in
        let (named, h₂) =
          refuse->>-eq-ok (is_blank_name (trimmed_name go raw.name))
            (bad_request ctx (text "name cannot be empty")) _ h₁ in
        let (known, h₃) = >>-eq-ok (patched_mode go net ctx raw.mode) _ h₂ in
        let (snapshot, h₄) =
          >>-eq-ok
            (or_bad_snapshot ctx "invalid_request" (validate_policy_snapshot go net raw.snapshot)) _
            h₃ in
        let same = ok_injective h₄ in
        rw (← same) (record {
          named = named;
          dated = dated;
          mode = patched_mode-IsValidMode raw.mode known;
          snapshot = good_snapshot "invalid_request" _ snapshot;
        })
