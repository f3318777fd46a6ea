-- ===== src/ControlApi/Http.antt =====
-- The requests and answers of the control API, and writeJSON, writeError and decodeJSON of
-- services/control-api/internal/httpapi/middleware.go.
use bedem_waf.Common.{ℕ, ◌^◌, String, List, ◌∷◌}
use bedem_waf.Common.Int.{ℤ, pos}
use bedem_waf.Common.Result.{Result, ok, err}
use bedem_waf.Go.Maps.{GoMap}
use bedem_waf.ControlApi.Names.{NameError}
use bedem_waf.ControlApi.Snapshot.{SnapshotError}
use bedem_waf.ControlApi.Events.{Time, Event, SimulationRuleSummary}
use bedem_waf.ControlApi.Events.Search.{SearchError}
use bedem_waf.ControlApi.Models.{
  Tenant, App, Policy, PublishPolicyResponse, GatewayPolicy, ManagedRuleSet, ManagedRuleVersion,
  ActivateManagedRuleVersionResponse,
}

-- A body, and the limits of the `http.MaxBytesReader`s around it, the last one first.
pub record RequestBody : Type 0 where
  pub text : String
  pub limits : List ℤ

-- `path_value` and `query` are what PathValue and URL.Query give.
pub record ApiRequest : Type 0 where
  pub method : String
  pub headers : GoMap (List String)
  pub query : GoMap (List String)
  pub path_value : String → String
  pub body : RequestBody

-- The values of the request's context, the empty text where there is none.
pub record Context : Type 0 where
  pub request_id : String
  pub tenant_id : String

-- The text of an error: a constant, or `err.Error()`.
pub data Message : Type 0 where
  text : String → Message
  name_text : NameError → Message
  snapshot_text : SnapshotError → Message
  search_text : SearchError → Message

-- What is written as JSON.
pub data Payload : Type 0 where
  status_text : String → Payload
  tenants : List Tenant → Payload
  tenant : Tenant → Payload
  apps : List App → Payload
  app : App → Payload
  policies : List Policy → Payload
  policy : Policy → Payload
  published : PublishPolicyResponse → Payload
  gateway_policy : GatewayPolicy → Payload
  managed_rule_sets : List ManagedRuleSet → Payload
  versions : List ManagedRuleVersion → Payload
  activation : ActivateManagedRuleVersionResponse → Payload
  events : List Event → Payload
  event : Event → Payload
  simulation : String → Time → Time → List SimulationRuleSummary → Payload
  error_body : String → Message → String → Payload
  metrics_text : Payload
  nothing : Payload

pub record Reply : Type 0 where
  pub status : ℕ
  pub payload : Payload

abbrev pub write_json : ℕ → Payload → Reply
write_json status value = record { status = status; payload = value }

abbrev pub write_error : Context → ℕ → String → Message → Reply
write_error ctx status code message = write_json status (error_body code message ctx.request_id)

abbrev pub bad_request : Context → Message → Reply
bad_request ctx message = write_error ctx 400 "invalid_request" message

abbrev pub internal_error : Context → Reply
internal_error ctx = write_error ctx 500 "internal_error" (text "internal server error")

-- The two calls of the JSON decoder in decodeJSON: the first fails, the second finds more, or the
-- body is one value.
pub data Decoded (A : Type 0) : Type 0 where
  not_json more_than_one : Decoded A
  one_value : A → Decoded A

-- decodeJSON: the body is read through one more limit. `decode` is the decoder of a limited body.
abbrev pub one_or : {A : Type 0} → Context → Decoded A → Result Reply A
one_or ctx not_json =
    err (write_error ctx 400 "invalid_json" (text "request body must be valid JSON"))
one_or ctx more_than_one =
    err (write_error ctx 400 "invalid_json" (text "request body must contain a single JSON object"))
one_or ctx (one_value a) = ok a

abbrev pub decode_json :
    {A : Type 0} → (RequestBody → Decoded A) → Context → ApiRequest → Result Reply A
decode_json decode ctx r =
    one_or ctx (decode (record { text = r.body.text; limits = pos (2 ^ 20) ∷ r.body.limits }))
