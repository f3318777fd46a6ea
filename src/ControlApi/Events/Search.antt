-- ===== src/ControlApi/Events/Search.antt =====
-- BuildSearchQuery, Search, GetByRequestID and decodeEvents of events.go. ClickHouse answers a query
-- with its parameters; a text of several lines is the list of its lines.
pub mod Safety
use bedem_waf.Common.{
  ℕ, String, Bool, true, false, not, ◌&&◌, ◌||◌, Option, none, some, List, [], ◌∷◌, ◌++◌, ◌==◌, ltb,
  eqb, if◌then◌else◌,
}
use bedem_waf.Common.Int.{ℤ, pos, ltb_ℤ, eqb_ℤ}
use bedem_waf.Common.Result.{Result, ok, err, ◌>>=◌, ◌>>◌, refuse}
use bedem_waf.Go.{Go}
use bedem_waf.Go.Strings.{concat}
use bedem_waf.Go.Maps.{GoMap, insert}
use bedem_waf.Go.Text.{trim_space}
use bedem_waf.ControlApi.Events.{Time, SearchFilters, Event}

pub data SearchError : Type 0 where
  limit_out_of_range from_behind_to : SearchError
  tenant_required request_id_required event_not_found query_failed malformed_event : SearchError

abbrev pub default_limit : ℤ
default_limit = pos 100

abbrev pub max_limit : ℤ
max_limit = pos 1000

-- The clauses and the parameters so far.
pub record Builder : Type 0 where
  pub clauses : List String
  pub params : GoMap String

-- It ends with a line break, and the query goes on with another.
unfoldable pub select_fields : List String
select_fields =
    "SELECT" ∷ "formatDateTime(timestamp, '%Y-%m-%dT%H:%i:%S.%fZ', 'UTC') AS timestamp,"
    ∷ "request_id," ∷ "tenant_id," ∷ "app_id," ∷ "policy_id," ∷ "policy_version_id," ∷ "host,"
    ∷ "client_ip," ∷ "method," ∷ "path," ∷ "action," ∷ "mode," ∷ "enforced," ∷ "would_block,"
    ∷ "status," ∷ "reason," ∷ "matched_rule_id," ∷ "matched_rule_name," ∷ "rule_group," ∷ "tags,"
    ∷ "anomaly_score," ∷ "user_agent," ∷ "latency_ms," ∷ "origin_status," ∷ "origin_latency_ms" ∷ ""
    ∷ []

-- `strings.Join(clauses, " AND ")`
unfoldable pub join_and : List String → String
unfolding concat
join_and [] = ""
join_and (c ∷ []) = c
join_and (c ∷ d ∷ cs) = concat (c ∷ " AND " ∷ join_and (d ∷ cs) ∷ [])

unfoldable pub query_of : List String → List String
unfolding select_fields join_and concat
query_of clauses =
    select_fields
    ++ ("FROM waf_events"
        ∷ concat ("WHERE " ∷ join_and clauses ∷ [])
        ∷ "ORDER BY timestamp DESC"
        ∷ "LIMIT {limit:UInt32}"
        ∷ "FORMAT JSONEachRow"
        ∷ [])

abbrev pub effective_limit : SearchFilters → ℤ
effective_limit f = if eqb_ℤ f.limit (pos 0) then default_limit else f.limit

-- Both ends are given, and the first lies behind the second.
abbrev pub is_reversed : Time → Time → Bool
is_reversed from to = not (eqb from 0) && not (eqb to 0) && ltb to from

-- `Time.Format` with RFC3339Nano, and `strconv.Itoa`
module _ (go : Go) (format_time : Time → String) where
  -- addStringFilter, in which the name of the parameter is that of the field
  unfoldable pub add_string_filter : String → String → Builder → Builder
  unfolding trim_space insert concat
  add_string_filter field value b =
      let trimmed = trim_space go value in
      if trimmed == "" then b else record {
        clauses = b.clauses ++ (concat (field ∷ " = {" ∷ field ∷ ":String}" ∷ []) ∷ []);
        params = insert field trimmed b.params;
      }

  unfoldable pub add_time_filter : String → String → Time → Builder → Builder
  unfolding insert
  add_time_filter name clause time b = if eqb time 0 then b else record {
    clauses = b.clauses ++ (clause ∷ []);
    params = insert name (format_time time) b.params;
  }

  unfoldable pub start_of : SearchFilters → Builder
  start_of f = record {
    clauses = "1 = 1" ∷ [];
    params = ("limit", go.itoa (effective_limit f)) ∷ [];
  }

  -- The filters behind that of the tenant.
  unfoldable pub behind_tenant : SearchFilters → Builder → Builder
  unfolding add_string_filter add_time_filter
  behind_tenant f b =
      add_time_filter "to" "timestamp <= parseDateTime64BestEffort({to:String}, 3)" f.to (
        add_time_filter "from" "timestamp >= parseDateTime64BestEffort({from:String}, 3)" f.from (
          add_string_filter "matched_rule_id" f.matched_rule_id (
            add_string_filter "client_ip" f.client_ip (
              add_string_filter "action" f.action (
                add_string_filter "host" f.host (
                  add_string_filter "policy_id" f.policy_id
                    (add_string_filter "app_id" f.app_id b)))))))

  unfoldable pub builder_of : SearchFilters → Builder
  unfolding add_string_filter behind_tenant start_of
  builder_of f = behind_tenant f (add_string_filter "tenant_id" f.tenant_id (start_of f))

  unfoldable pub build_search_query :
      SearchFilters → Result SearchError (List String × GoMap String)
  unfolding builder_of query_of
  build_search_query f = do
    let limit = effective_limit f
    refuse (ltb_ℤ limit (pos 1) || ltb_ℤ max_limit limit) limit_out_of_range
    refuse (is_reversed f.from f.to) from_behind_to
    let b = builder_of f
    ok (query_of b.clauses, b.params)

-- The answer of the database: the lines of its body, and whether the scanner stopped at an error; or
-- none where the exchange fails or the status is no success.
pub record Answer : Type 0 where
  pub lines : List String
  pub scan_failed : Bool

pub record ClickHouse (N : Type 0) : Type 0 where
  pub query : N → List String → GoMap String → Option Answer × N
  -- json.Unmarshal into an Event
  pub decode_event : String → Option Event

module _ (go : Go) {N : Type 0} (db : ClickHouse N) where
  abbrev decoded_line : Option Event → Result SearchError Event
  decoded_line none = err malformed_event
  decoded_line (some e) = ok e

  -- The loop of decodeEvents.
  unfoldable pub decode_lines : List String → Result SearchError (List Event)
  unfolding trim_space
  decode_lines [] = ok []
  decode_lines (l ∷ ls) =
      let rest = decode_lines ls in
      let line = trim_space go l in
      if line == ""
      then rest
      else (decoded_line (db.decode_event line) >>= λ e. rest >>= λ es. ok (e ∷ es))

  unfoldable pub decode_events : Option Answer → Result SearchError (List Event)
  unfolding decode_lines
  decode_events none = err query_failed
  decode_events (some a) = do
    events ← decode_lines a.lines
    refuse a.scan_failed query_failed
    ok events

  unfoldable pub run_query :
      N → Result SearchError (List String × GoMap String) → Result SearchError (List Event) × N
  unfolding decode_events
  run_query n (err e) = (err e, n)
  run_query n (ok (query, params)) =
      let (answer, n') = db.query n query params in (decode_events answer, n')

  unfoldable pub search : (Time → String) → N → SearchFilters → Result SearchError (List Event) × N
  unfolding run_query build_search_query
  search format_time n filters = run_query n (build_search_query go format_time filters)

  unfoldable pub request_query : String → String → Result SearchError (List String × GoMap String)
  unfolding trim_space select_fields
  request_query tenant_id request_id = do
    refuse (trim_space go tenant_id == "") tenant_required
    refuse (trim_space go request_id == "") request_id_required
    ok (
      select_fields
          ++ ("FROM waf_events" ∷ "WHERE tenant_id = {tenant_id:String}"
              ∷ "  AND request_id = {request_id:String}" ∷ "ORDER BY timestamp DESC" ∷ "LIMIT 1"
              ∷ "FORMAT JSONEachRow" ∷ []),
      ("tenant_id", trim_space go tenant_id) ∷ ("request_id", trim_space go request_id) ∷ [],
    )

  abbrev pub first_event : Result SearchError (List Event) → Result SearchError Event
  first_event (err e) = err e
  first_event (ok []) = err event_not_found
  first_event (ok (e ∷ es)) = ok e

  unfoldable pub get_by_request_id : N → String → String → Result SearchError Event × N
  unfolding run_query request_query
  get_by_request_id n tenant_id request_id =
      let (found, n') = run_query n (request_query tenant_id request_id) in (first_event found, n')
