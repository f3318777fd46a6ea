-- ===== src/Proxy/Serve.antt =====
-- ServeHTTP of gateway.go, around the decision. The recovery of a panic matters in one place, a
-- lookup that finds no app. Times and log lines are left out, and the request id is an argument.
pub mod Outcome
pub mod Logging
pub mod Secrets
use bedem_waf.Common.{
  ℕ, String, Bool, true, false, not, ◌&&◌, Option, none, some, List, [], ◌∷◌, ◌==◌, is_nonempty,
  if◌then◌else◌,
}
use bedem_waf.Common.Int.{ℤ, pos, eqb_ℤ}
use bedem_waf.Common.Result.{Result, ok, err}
use bedem_waf.Go.{Go, Url}
use bedem_waf.Go.Maps.{GoMap, insert, first_value}
use bedem_waf.Go.Netip.{Addr}
use bedem_waf.Decision.{
  action_string, mode_string, is_allow, is_rate_limit, is_block_mode, RateLimitInfo, Decision,
  would_block, enforced_action,
}
use bedem_waf.Policy.{App}
use bedem_waf.Policy.Host.{normalize_host, valid_host}
use bedem_waf.Policy.Store.{LookupResult}
use bedem_waf.Audit.{RateLimit, Event}
use bedem_waf.Audit.Redaction
use bedem_waf.Proxy.{HttpRequest, Gateway, State, Transport}
use bedem_waf.Proxy.Client.{client_ip}
use bedem_waf.Proxy.Reading.{Prepared, prepare_request_body, redacted_preview}
use bedem_waf.Proxy.Decide.{decide}

-- What the client gets: the two fixed pages, the JSON error of writeJSONError, nothing (net/http
-- then sends an empty 200), or what the origin answers to the request that is passed on.
pub data Response : Type 0 where
  health_page metrics_page nothing_written : Response
  error_response : ℤ → String → String → Response
  proxied : Url → HttpRequest → Option ℤ → Response

-- The calls of the package metrics, without the times.
pub data Metric : Type 0 where
  observed_request : Event → Metric
  observed_origin rate_limited : Metric

pub record Served (P L W O : Type 0) : Type 0 where
  pub response : Response
  pub event : Option Event
  pub metrics : List Metric
  pub state : State P L W
  pub origins : O

-- `recorder.status`; an origin that cannot be reached makes a 502.
abbrev pub status_of : Response → ℤ
status_of (error_response status id message) = status
status_of (proxied url r (some status)) = status
status_of (proxied url r none) = pos 502
status_of _ = pos 200

abbrev pub scheme_for_request : HttpRequest → String
scheme_for_request r = if r.tls then "https" else "http"

-- The deferred part: the status is filled in, and the event is counted and logged.
abbrev pub logged :
    {P L W O : Type 0} → O → State P L W → List Metric → Event → Response → Served P L W O
logged o state metrics e response =
    let closed = record e { status = status_of response } in
    record {
      response = response;
      event = some closed;
      metrics = observed_request closed ∷ metrics;
      state = state;
      origins = o;
    }

abbrev pub unlogged : {P L W O : Type 0} → O → State P L W → Response → Served P L W O
unlogged o state response = record {
  response = response;
  event = none;
  metrics = [];
  state = state;
  origins = o;
}

abbrev pub audit_limit : RateLimitInfo → RateLimit
audit_limit i = record {
  limit = i.limit;
  remaining = i.remaining;
  reset_at = i.reset_at;
  rule_id = i.rule_id;
  action = action_string i.action;
}

abbrev pub with_limit : Option RateLimitInfo → Event → Event
with_limit none e = e
with_limit (some i) e = record e { limit_info = some (audit_limit i) }

-- The fields that the decision fills.
unfoldable pub decided_event : App → Decision → Event → Event
decided_event app final e = with_limit final.limit_info (record e {
  action = action_string final.action;
  enforced = is_block_mode app.mode && would_block final;
  would_block = would_block final;
  reason = final.reason;
  matched_rule_id = final.matched_rule_id;
  matched_rule_name = final.matched_rule_name;
  rule_group = final.rule_group;
  tags = final.tags;
  anomaly_score = final.anomaly_score;
})

abbrev limit_metrics : Decision → Option RateLimitInfo → List Metric
limit_metrics final none = []
limit_metrics final (some i) = if is_rate_limit final.action then rate_limited ∷ [] else []

abbrev pub or_status : ℤ → ℤ → ℤ
or_status fallback status = if eqb_ℤ status (pos 0) then fallback else status

-- The test of the enforced action that precedes a refusal.
unfoldable pub refuses : App → Decision → Bool
refuses app final =
    not (is_allow (enforced_action app.mode final)) && (is_block_mode app.mode && would_block final)

abbrev pub filled_app : App → Event → Event
filled_app app e = record e {
  tenant_id = app.tenant_id;
  app_id = app.id;
  policy_id = app.policy_id;
  policy_version = app.policy_version;
  mode = mode_string app.mode;
}

-- `if lookup.Warning != ""`
abbrev pub warned : LookupResult → Event → Event
warned lookup e = if lookup.warning == "" then e else record e { reason = lookup.warning }

-- `if !lookup.Found`
abbrev pub not_found_response : String → LookupResult → Response
not_found_response id lookup =
    let status = or_status (pos 404) lookup.status_code in
    error_response status id
      (if eqb_ℤ status (pos 503) then "policy unavailable" else "no matching app")

module _ (go : Go) where
  unfoldable pub base_event : String → Addr → String → HttpRequest → Event
  unfolding Redaction.query first_value
  base_event id ip host r = record {
    request_id = id;
    tenant_id = "";
    app_id = "";
    policy_id = "";
    policy_version = "";
    host = host;
    client_ip = go.addr_string ip;
    country = "ZZ";
    method = r.method;
    path = r.url_path;
    query_redacted = Redaction.query go r.raw_query;
    user_agent = first_value "User-Agent" r.headers;
    action = "allow";
    mode = "";
    enforced = false;
    would_block = false;
    status = pos 0;
    reason = "";
    matched_rule_id = "";
    matched_rule_name = "";
    rule_group = "";
    tags = [];
    anomaly_score = pos 0;
    limit_info = none;
    origin_status = pos 0;
    body_preview = "";
  }

  abbrev set_header : String → String → GoMap (List String) → GoMap (List String)
  set_header name value hs = insert (go.canonical_header_key name) (value ∷ []) hs

  -- The request as it goes to the origin.
  unfoldable pub forwarded_request : String → HttpRequest → HttpRequest
  forwarded_request id r = record r {
    headers =
        set_header "X-Forwarded-Proto" (scheme_for_request r)
          (set_header "X-Forwarded-Host" r.host (set_header "X-BedemWAF-Request-ID" id r.headers));
  }

module _ (go : Go) {P L W O : Type 0} (g : Gateway P L W) (transport : Transport O) (o : O)
    (id : String) where
  -- The part behind the decision.
  unfoldable pub finish : State P L W → App → HttpRequest → Event → Decision → Served P L W O
  finish s app r e final =
      let limits = limit_metrics final final.limit_info in
      let seen = decided_event app final e in
      let sent = forwarded_request go id r in
      let (answer, o') = transport o app.origin sent in
      if refuses app final
      then logged o s limits seen
          (error_response (or_status (pos 403) final.status_code) id "request blocked")
      else logged o' s (observed_origin ∷ limits)
          (record seen { origin_status = elim answer [ none ↦ pos 0 | some status ↦ status ] })
          (proxied app.origin sent answer)

  abbrev pub failed : State P L W → String → String → Event → Served P L W O
  failed s reason message e =
      logged o s [] (record e { action = "block"; reason = reason })
        (error_response (pos 400) id message)

  abbrev pub with_preview : List ℕ → Event → Event
  with_preview preview e =
      if g.debug_preview && is_nonempty preview
      then record e { body_preview = redacted_preview go preview g.preview_bytes }
      else e

  abbrev pub after_decision :
      State P L W → App → HttpRequest → Event → Result String Decision × (L × W) → Served P L W O
  after_decision s app r e (err error, (l, w)) =
      failed (record s { counters = l; engine = w }) "waf_error" "waf inspection failed" e
  after_decision s app r e (ok final, (l, w)) =
      finish (record s { counters = l; engine = w }) app r e final

  -- The part behind the preparation of the body; `r` has the new body.
  unfoldable pub serve_prepared :
      State P L W → App → HttpRequest → Prepared → Addr → String → Event → Served P L W O
  serve_prepared s app r p ip host e =
      after_decision s app (record r { body = p.body }) (with_preview p.preview e)
        (decide go g.limiter g.waf s.counters s.engine id app (record r { body = p.body }) p.preview
          p.exceeded ip host)

  abbrev pub after_body_read :
      State P L W
      → App
      → HttpRequest
      → Addr
      → String
      → Event
      → Result String Prepared
      → Served P L W O
  after_body_read s app r ip host e (err error) =
      failed s "request_body_read_failed" "invalid request body" e
  after_body_read s app r ip host e (ok p) = serve_prepared s app r p ip host e

  -- The part behind a lookup that found the app.
  unfoldable pub serve_app :
      State P L W → App → HttpRequest → Addr → String → Event → Served P L W O
  serve_app s app r ip host e =
      after_body_read s app r ip host (filled_app app e) (prepare_request_body g.body_limit r.body)

  -- A lookup that says it found an app and has none makes ServeHTTP panic.
  abbrev pub serve_found :
      State P L W → Option App → HttpRequest → Addr → String → Event → Served P L W O
  serve_found s none r ip host e = record (logged o s [] e nothing_written) {
    response = error_response (pos 500) "" "internal server error";
  }
  serve_found s (some app) r ip host e = serve_app s app r ip host e

  -- The part behind the lookup.
  unfoldable pub serve_lookup :
      State P L W → HttpRequest → Addr → String → LookupResult → Event → Served P L W O
  serve_lookup s r ip host lookup e =
      if lookup.fail_open
      then logged o s [] (record e { action = "allow"; reason = lookup.reason }) nothing_written
      else if not lookup.found
      then logged o s [] (record e { action = "block"; reason = lookup.reason })
          (not_found_response id lookup)
      else serve_found s lookup.app r ip host e

  unfoldable pub serve_http : State P L W → HttpRequest → Served P L W O
  serve_http s r =
      let host = normalize_host go r.host in
      let ip = client_ip go g.trusted_proxies r in
      let (lookup, policies) = g.provider.lookup_host s.policies host in
      if r.url_path == "/healthz"
      then unlogged o s health_page
      else if r.url_path == "/metrics"
      then unlogged o s metrics_page
      else if not (valid_host go host)
      then unlogged o s (error_response (pos 400) id "invalid host")
      else serve_lookup (record s { policies = policies }) r ip host lookup
          (warned lookup (base_event go id ip host r))
