-- ===== src/ControlApi/Handlers/Tenancy.antt =====
-- The tenant of a request, and that what the handlers store and look for belongs to it.
use bedem_waf.Common.{
  String, not, ◌&&◌, ◌||◌, ◌≡◌, ap, sym, ◌∙◌, List, ◌==◌, Bool-cases, inl, inr, eq_iff,
}
use bedem_waf.Common.Result.{Result, ok, ◌>>=◌, >>=-eq-ok, >>-eq-ok, refuse->>-eq-ok, ok_injective}
use bedem_waf.Go.{Go}
use bedem_waf.Go.Maps.{GoMap, first_value}
use bedem_waf.Go.Text.{trim_space, is_space}
use bedem_waf.Go.Strings.Chars.{trim_twice}
use bedem_waf.ControlApi.{Parsers, OriginUrl}
use bedem_waf.ControlApi.Names.{validate_slug, validate_hostnames, parse_origin_url, validate_json}
use bedem_waf.ControlApi.Events.Search.{is_reversed, max_limit}
use bedem_waf.ControlApi.Events.{SearchFilters}
use bedem_waf.ControlApi.Models.{CreateAppRequest}
use bedem_waf.ControlApi.Http.{ApiRequest, Context, Reply, text, bad_request}
use bedem_waf.ControlApi.Handlers.{Decoders, checked, or_bad_name}
use bedem_waf.ControlApi.Handlers.Apps.{in_tenant, validate_create_app}
use bedem_waf.ControlApi.Handlers.Searches.{
  with_times, time_of, parse_simulation_filters, parse_event_filters, no_filters, limit_or,
}
use bedem_waf.ControlApi.Access.{tenant_of}

module _ (go : Go) where
  trim_space_twice : (s : String) → trim_space go (trim_space go s) ≡ trim_space go s
  unfolding trim_space
  trim_space_twice s = trim_twice (is_space go) s

  -- The tenant of a request has no space around it.
  pub tenant_of-trimmed :
      (ctx : Context) (r : ApiRequest) (t : String)
      → tenant_of go ctx r ≡ ok t
      → trim_space go t ≡ t
  unfolding tenant_of
  tenant_of-trimmed ctx r t h =
      let header = trim_space go (first_value "X-Bedem-Tenant-Id" r.headers) in
      let query = trim_space go (first_value "tenant_id" r.query) in
      elim (Bool-cases (not (header == "") && (not (query == "") && not (header == query)))) [
        | inl e ↦ let g = rw e at h in cc
        | inr e ↦ elim (Bool-cases (not (header == ""))) [
          | inl f ↦
              let same : header ≡ t = ok_injective (rw (e, f) at h) in
              rw (← same) (trim_space_twice (first_value "X-Bedem-Tenant-Id" r.headers))
          | inr f ↦ elim (Bool-cases (not (query == ""))) [
            | inl g ↦
                let same : query ≡ t = ok_injective (rw (e, f, g) at h) in
                rw (← same) (trim_space_twice (first_value "tenant_id" r.query))
            | inr g ↦ let k = rw (e, f, g) at h in cc
          ]
        ]
      ]

  module _ (net : Parsers) (ctx : Context) where
    in_tenant-tenant :
        (raw req : CreateAppRequest)
        → in_tenant go net ctx raw ≡ ok req
        → req.tenant_id ≡ ctx.tenant_id
    unfolding in_tenant
    in_tenant-tenant raw req h = elim (Bool-cases (trim_space go raw.tenant_id == "")) [
      | inl e ↦ sym (ap (λ q. q.tenant_id) (ok_injective (rw e at h)))
      | inr e ↦ elim (Bool-cases (trim_space go raw.tenant_id == ctx.tenant_id)) [
        | inl f ↦
            sym (ap (λ q. q.tenant_id) (ok_injective (rw (e, f) at h)))
            ∙ (eq_iff (trim_space go raw.tenant_id) ctx.tenant_id).0 f
        | inr f ↦ let k = rw (e, f) at h in cc
      ]
    ]

    validate_create_app-tenant :
        (raw : CreateAppRequest) (checked : CreateAppRequest × OriginUrl)
        → validate_create_app go net ctx raw ≡ ok checked
        → checked.0.tenant_id ≡ trim_space go raw.tenant_id
    unfolding validate_create_app
    validate_create_app-tenant raw checked h =
        let (_, h₁) =
          refuse->>-eq-ok (trim_space go raw.tenant_id == "" || trim_space go raw.name == "")
            (bad_request ctx (text "tenant_id and name are required")) _ h in
        let (_, h₂) =
          >>-eq-ok (or_bad_name ctx (validate_slug "slug" (trim_space go raw.slug))) _ h₁ in
        let (_, h₃) = >>-eq-ok (or_bad_name ctx (validate_hostnames go raw.hostnames)) _ h₂ in
        let (origin, _, h₄) =
          >>=-eq-ok (or_bad_name ctx (parse_origin_url net go raw.origin_url)) _ h₃ in
        let (_, h₅) = >>-eq-ok (or_bad_name ctx (validate_json net raw.metadata "metadata")) _ h₄ in
        sym (ap (λ q. q.0.tenant_id) (ok_injective h₅))

    -- What createApp stores belongs to the tenant of the context.
    pub created_in_tenant :
        (m : Result Reply CreateAppRequest) (req : CreateAppRequest × OriginUrl)
        → trim_space go ctx.tenant_id ≡ ctx.tenant_id
        → ((m >>= in_tenant go net ctx) >>= validate_create_app go net ctx) ≡ ok req
        → req.0.tenant_id ≡ ctx.tenant_id
    created_in_tenant m req plain h =
        let (owned, h₁, h₂) = >>=-eq-ok (m >>= in_tenant go net ctx) _ h in
        let (raw, h₃, h₄) = >>=-eq-ok m _ h₁ in
        let owner = in_tenant-tenant raw owned h₄ in
        validate_create_app-tenant owned req h₂ ∙ ap (trim_space go) owner ∙ plain

  module _ (io : Decoders) (ctx : Context) where
    with_times-tenant :
        (f g : SearchFilters) (values : GoMap (List String))
        → with_times go io ctx f values ≡ ok g
        → g.tenant_id ≡ f.tenant_id
    unfolding with_times
    with_times-tenant f g values h =
        let (from, _, h₁) =
          >>=-eq-ok (time_of go io ctx "from" (text "from must be RFC3339") values) _ h in
        let (to, _, h₂) =
          >>=-eq-ok (time_of go io ctx "to" (text "to must be RFC3339") values) _ h₁ in
        let (_, h₃) =
          refuse->>-eq-ok (is_reversed from to) (bad_request ctx (text "from must be before to")) _
            h₂ in
        sym (ap (λ q. q.tenant_id) (ok_injective h₃))

    pub parse_simulation_filters-tenant :
        (policy_id : String) (values : GoMap (List String)) (f : SearchFilters)
        → parse_simulation_filters go io ctx policy_id values ≡ ok f
        → f.tenant_id ≡ ctx.tenant_id
    unfolding parse_simulation_filters
    parse_simulation_filters-tenant policy_id values f h =
        let (_, h₁) =
          refuse->>-eq-ok (trim_space go policy_id == "")
            (bad_request ctx (text "policy_id is required")) _ h in
        with_times-tenant
          (record (no_filters go io ctx) { policy_id = trim_space go policy_id; limit = max_limit })
          f values h₁

    pub parse_event_filters-tenant :
        (values : GoMap (List String)) (f : SearchFilters)
        → parse_event_filters go io ctx values ≡ ok f
        → f.tenant_id ≡ ctx.tenant_id
    unfolding parse_event_filters
    parse_event_filters-tenant values f h =
        let asked = trim_space go (first_value "tenant_id" values) in
        let raw = first_value "limit" values in
        let (_, h₁) =
          refuse->>-eq-ok (not (asked == "") && not (asked == ctx.tenant_id))
            (bad_request ctx (text "tenant_id query parameter must match tenant context")) _ h in
        let (limit, _, h₂) = >>=-eq-ok (limit_or go io ctx raw (io.atoi raw)) _ h₁ in
        with_times-tenant
          (record (no_filters go io ctx) {
            app_id = first_value "app_id" values;
            host = first_value "host" values;
            action = first_value "action" values;
            client_ip = first_value "client_ip" values;
            matched_rule_id = first_value "matched_rule_id" values;
            limit = limit;
          })
          f values h₂
