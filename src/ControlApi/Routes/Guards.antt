-- ===== src/ControlApi/Routes/Guards.antt =====
-- What stands in front of the handlers.
use bedem_waf.Common.{String, false, ◌≡◌, refl, Option, none, some, ◌==◌, Bool-cases, inl, inr}
use bedem_waf.Common.Int.{ℤ, pos, ltb_ℤ}
use bedem_waf.Go.{Go}
use bedem_waf.ControlApi.{Parsers}
use bedem_waf.ControlApi.Models.{Repository}
use bedem_waf.ControlApi.Http.{ApiRequest, Context, Reply, text, write_error}
use bedem_waf.ControlApi.Handlers.{Decoders, EventStore}
use bedem_waf.ControlApi.Access.{
  Server, authorized, require_auth, require_gateway_auth, with_limited_body, request_id_of,
}
use bedem_waf.ControlApi.Routes.{
  Route, healthz, readyz, metrics, other, get_gateway_policy, admin_global, admin_tenant, dispatch,
  serve, list_tenants, create_tenant, list_apps, create_app, get_app, patch_app, list_policies,
  create_policy, get_active_policy, get_policy, patch_policy, publish_policy,
  get_policy_simulation_summary, list_managed_rule_sets, list_managed_rule_versions,
  activate_managed_rule_version, list_events, get_event,
}

-- The token that a route asks for: none for the probes, the metrics and a path without a route, the
-- gateway's for the gateway's policy, and the administrator's for everything else.
abbrev pub token_for : Server → Route → Option String
token_for server healthz = none
token_for server readyz = none
token_for server metrics = none
token_for server other = none
token_for server get_gateway_policy = some server.gateway_token
token_for server _ = some server.admin_token

module _ (go : Go) (net : Parsers) (io : Decoders) {R : Type 0} (repo : Repository R)
    (store : EventStore R) (server : Server) where
  module _ (r : ApiRequest) (s : R) (ctx : Context) where
    IsTurnedAway : Reply × R → Type 0
    IsTurnedAway answer =
        (message : String) × (answer ≡ (write_error ctx 401 "unauthorized" (text message), s))

    module _ (held token : String) (next : Reply × R) where
      turned_away :
          some held ≡ some token
          → authorized go token r.headers ≡ false
          → IsTurnedAway (require_auth go ctx r s held next)
      unfolding require_auth IsTurnedAway
      turned_away e h =
          let same : held ≡ token = cc in ("missing or invalid bearer token", rw (same, h) refl)

      gateway-IsTurnedAway :
          some held ≡ some token
          → authorized go token r.headers ≡ false
          → IsTurnedAway (require_gateway_auth go ctx r s held next)
      unfolding require_gateway_auth IsTurnedAway
      gateway-IsTurnedAway e h =
          let same : held ≡ token = cc in
          ("missing or invalid gateway bearer token", rw (same, h) refl)

    dispatch-IsTurnedAway :
        (route : Route) (token : String)
        → token_for server route ≡ some token
        → authorized go token r.headers ≡ false
        → IsTurnedAway (dispatch go net io repo store server r s ctx route)
    unfolding dispatch admin_global admin_tenant
    dispatch-IsTurnedAway healthz token e h = cc
    dispatch-IsTurnedAway readyz token e h = cc
    dispatch-IsTurnedAway metrics token e h = cc
    dispatch-IsTurnedAway other token e h = cc
    dispatch-IsTurnedAway get_gateway_policy token e h = gateway-IsTurnedAway _ token _ e h
    dispatch-IsTurnedAway list_tenants token e h = turned_away _ token _ e h
    dispatch-IsTurnedAway create_tenant token e h = turned_away _ token _ e h
    dispatch-IsTurnedAway list_apps token e h = turned_away _ token _ e h
    dispatch-IsTurnedAway create_app token e h = turned_away _ token _ e h
    dispatch-IsTurnedAway get_app token e h = turned_away _ token _ e h
    dispatch-IsTurnedAway patch_app token e h = turned_away _ token _ e h
    dispatch-IsTurnedAway list_policies token e h = turned_away _ token _ e h
    dispatch-IsTurnedAway create_policy token e h = turned_away _ token _ e h
    dispatch-IsTurnedAway get_active_policy token e h = turned_away _ token _ e h
    dispatch-IsTurnedAway get_policy token e h = turned_away _ token _ e h
    dispatch-IsTurnedAway patch_policy token e h = turned_away _ token _ e h
    dispatch-IsTurnedAway publish_policy token e h = turned_away _ token _ e h
    dispatch-IsTurnedAway get_policy_simulation_summary token e h = turned_away _ token _ e h
    dispatch-IsTurnedAway list_managed_rule_sets token e h = turned_away _ token _ e h
    dispatch-IsTurnedAway list_managed_rule_versions token e h = turned_away _ token _ e h
    dispatch-IsTurnedAway activate_managed_rule_version token e h = turned_away _ token _ e h
    dispatch-IsTurnedAway list_events token e h = turned_away _ token _ e h
    dispatch-IsTurnedAway get_event token e h = turned_away _ token _ e h

  headers_kept : (limit : ℤ) (r : ApiRequest) → (with_limited_body limit r).headers ≡ r.headers
  unfolding with_limited_body
  headers_kept limit r = elim (Bool-cases (ltb_ℤ (pos 0) limit)) [
    | inl e ↦ rw e refl
    | inr e ↦ rw e refl
  ]

  served :
      (fresh : String) (route : Route) (r : ApiRequest) (s : R)
      → (r.method == "OPTIONS") ≡ false
      → (message : String)
      → dispatch go net io repo store server
          (with_limited_body server.request_body_limit_bytes r)
          s
          (record { request_id = request_id_of go fresh r; tenant_id = "" })
          route
        ≡ (
          write_error
              (record { request_id = request_id_of go fresh r; tenant_id = "" })
              401
              "unauthorized"
              (text message),
          s,
        )
      → ((serve go net io repo store server fresh route r s).0.status ≡ 401)
        × ((serve go net io repo store server fresh route r s).1 ≡ s)
  unfolding serve
  served fresh route r s e message h = rw (e, h) (refl, refl)

  -- A request without the bearer token that its route asks for, and which is no OPTIONS request, gets
  -- status 401, and the state of the repository and the event store is as before.
  pub serve_unauthorized :
      (fresh : String) (route : Route) (r : ApiRequest) (s : R) (token : String)
      → (r.method == "OPTIONS") ≡ false
      → token_for server route ≡ some token
      → authorized go token r.headers ≡ false
      → ((serve go net io repo store server fresh route r s).0.status ≡ 401)
        × ((serve go net io repo store server fresh route r s).1 ≡ s)
  unfolding IsTurnedAway
  serve_unauthorized fresh route r s token method asks refused =
      let limited = with_limited_body server.request_body_limit_bytes r in
      let (message, away) =
        dispatch-IsTurnedAway limited s
          (record { request_id = request_id_of go fresh r; tenant_id = "" }) route token asks
          (rw (headers_kept server.request_body_limit_bytes r) refused) in
      served fresh route r s method message away
