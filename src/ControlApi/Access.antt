-- ===== src/ControlApi/Access.antt =====
-- services/control-api/internal/auth/auth.go, the guards requireAuth, requireTenant and
-- requireGatewayAuth of server.go, and the middleware of middleware.go. A guard gets what the handler
-- behind it would answer; a header is looked up by its canonical name. Log lines, metrics and panics are left out.
pub mod Bearer
use Prim.Native.String.{[], ◌∷◌}
use mathlib.Core.List.{List}
use bedem_waf.Common.{ℕ, String, Bool, true, false, not, ◌&&◌, ◌==◌, if◌then◌else◌}
use bedem_waf.Common.Int.{ℤ, pos, ltb_ℤ}
use bedem_waf.Common.Result.{Result, ok, err}
use bedem_waf.Go.{Go}
use bedem_waf.Go.Maps.{GoMap, first_value}
use bedem_waf.Go.Strings.{has_prefix}
use bedem_waf.Go.Text.{trim_space}
use bedem_waf.Policy.Rules.{is_member}
use bedem_waf.ControlApi.Http.{
  RequestBody, ApiRequest, Context, Reply, Payload, nothing, text, write_json, write_error,
  bad_request,
}

-- `strings.TrimPrefix` of a text that has the prefix
unfoldable pub drop_prefix : String → String → String
drop_prefix s [] = s
drop_prefix [] (c ∷ t) = []
drop_prefix (d ∷ s) (c ∷ t) = drop_prefix s t

module _ (go : Go) where
  -- StaticBearer.Authorized. The comparison in constant time is that of the texts.
  unfoldable pub authorized : String → GoMap (List String) → Bool
  unfolding first_value has_prefix drop_prefix trim_space
  authorized token headers =
      let header = first_value "Authorization" headers in
      not (token == "")
      && (has_prefix header "Bearer " && trim_space go (drop_prefix header "Bearer ") == token)

  module _ {R : Type 0} (ctx : Context) (r : ApiRequest) (s : R) where
    unfoldable pub require_auth : String → Reply × R → Reply × R
    unfolding authorized
    require_auth token next =
        if authorized token r.headers
        then next
        else (write_error ctx 401 "unauthorized" (text "missing or invalid bearer token"), s)

    unfoldable pub require_gateway_auth : String → Reply × R → Reply × R
    unfolding authorized
    require_gateway_auth token next = if authorized token r.headers then next else (
      write_error ctx 401 "unauthorized" (text "missing or invalid gateway bearer token"),
      s,
    )

  -- The tenant of a request: that of its header, or else that of its query.
  unfoldable pub tenant_of : Context → ApiRequest → Result Reply String
  unfolding first_value trim_space
  tenant_of ctx r =
      let header = trim_space go (first_value "X-Bedem-Tenant-Id" r.headers) in
      let query = trim_space go (first_value "tenant_id" r.query) in
      if not (header == "") && (not (query == "") && not (header == query))
      then err (bad_request ctx (text "tenant_id query parameter must match tenant context"))
      else if not (header == "")
      then ok header
      else if not (query == "")
      then ok query
      else err (write_error ctx 400 "tenant_required" (text "tenant context is required"))

  abbrev pub in_context :
      {R : Type 0} → Context → R → (Context → Reply × R) → Result Reply String → Reply × R
  in_context ctx s next (err reply) = (reply, s)
  in_context ctx s next (ok tenant) = next (record ctx { tenant_id = tenant })

  unfoldable pub require_tenant :
      {R : Type 0} → Context → ApiRequest → R → (Context → Reply × R) → Reply × R
  unfolding tenant_of
  require_tenant ctx r s next = in_context ctx s next (tenant_of ctx r)

-- An answer with the headers that the middleware sets.
pub record Response : Type 0 where
  pub status : ℕ
  pub payload : Payload
  pub headers : GoMap String

-- `Server`, without the repository, the event store and the logger. The set of origins is a list.
pub record Server : Type 0 where
  pub admin_token : String
  pub gateway_token : String
  pub request_body_limit_bytes : ℤ
  pub cors_allowed_origins : List String

pub record SecurityConfig : Type 0 where
  pub request_body_limit_bytes : ℤ
  pub cors_allowed_origins : List String

module _ (go : Go) where
  -- The loop of ConfigureSecurity.
  unfoldable pub allowed_origins : List String → List String
  unfolding trim_space
  allowed_origins List.[] = List.[]
  allowed_origins (List.◌∷◌ raw raws) =
      let rest = allowed_origins raws in
      let origin = trim_space go raw in
      if not (origin == "") && not (origin == "*") then List.◌∷◌ origin rest else rest

  unfoldable pub origins_or : List String → List String → List String
  unfolding allowed_origins
  origins_or old List.[] = old
  origins_or old (List.◌∷◌ raw raws) = allowed_origins (List.◌∷◌ raw raws)

  unfoldable pub configure_security : Server → SecurityConfig → Server
  unfolding origins_or
  configure_security server cfg = record server {
    request_body_limit_bytes =
        if ltb_ℤ (pos 0) cfg.request_body_limit_bytes
        then cfg.request_body_limit_bytes
        else server.request_body_limit_bytes;
    cors_allowed_origins = origins_or server.cors_allowed_origins cfg.cors_allowed_origins;
  }

  unfoldable pub new_server : String → String → Server
  unfolding configure_security
  new_server admin gateway =
      configure_security
        (record {
          admin_token = admin;
          gateway_token = gateway;
          request_body_limit_bytes = pos 1048576;
          cors_allowed_origins = List.[];
        })
        (record {
          request_body_limit_bytes = pos 0;
          cors_allowed_origins =
              List.◌∷◌ "http://localhost:3000" (List.◌∷◌ "http://127.0.0.1:3000" List.[]);
        })

  -- requestIDMiddleware: the id of the request, or a fresh one.
  unfoldable pub request_id_of : String → ApiRequest → String
  unfolding first_value trim_space
  request_id_of fresh r =
      let given = trim_space go (first_value "X-Request-Id" r.headers) in
      if given == "" then fresh else given

-- corsMiddleware: the headers for an allowed origin.
unfoldable pub cors_headers : Server → ApiRequest → GoMap String
unfolding first_value
cors_headers server r =
    let origin = first_value "Origin" r.headers in
    if is_member origin server.cors_allowed_origins
    then List.◌∷◌ ("Access-Control-Allow-Origin", origin)
        (List.◌∷◌ ("Vary", "Origin")
          (List.◌∷◌
            (
              "Access-Control-Allow-Headers",
              "Authorization, Content-Type, X-Request-ID, X-Bedem-Tenant-ID",
            )
            (List.◌∷◌ ("Access-Control-Allow-Methods", "GET, POST, PATCH, OPTIONS") List.[])))
    else List.[]

abbrev pub secure_headers : GoMap String
secure_headers =
    List.◌∷◌ ("X-Content-Type-Options", "nosniff")
      (List.◌∷◌ ("X-Frame-Options", "DENY") (List.◌∷◌ ("Referrer-Policy", "no-referrer") List.[]))

-- requestSizeLimitMiddleware
unfoldable pub with_limited_body : ℤ → ApiRequest → ApiRequest
with_limited_body limit r =
    if ltb_ℤ (pos 0) limit
    then record r { body = record { text = r.body.text; limits = List.◌∷◌ limit r.body.limits } }
    else r
