-- ===== src/ControlApi/Handlers/Searches.antt =====
-- The handlers of events and of the simulation summary in server.go.
use bedem_waf.Common.{String, not, ◌&&◌, ◌||◌, Option, none, some, List, ◌==◌, if◌then◌else◌}
use bedem_waf.Common.Int.{ℤ, pos, ltb_ℤ}
use bedem_waf.Common.Result.{Result, ok, err, ◌>>=◌, ◌>>◌, refuse}
use bedem_waf.Go.{Go}
use bedem_waf.Go.Maps.{GoMap, first_value}
use bedem_waf.Go.Text.{trim_space}
use bedem_waf.ControlApi.Events.{Time, SearchFilters, Event}
use bedem_waf.ControlApi.Events.Search.{
  SearchError, event_not_found, default_limit, max_limit, is_reversed,
}
use bedem_waf.ControlApi.Events.Summary.{build_simulation_summary}
use bedem_waf.ControlApi.Http.{
  ApiRequest, Context, Reply, Message, text, search_text, events, event, simulation, write_json,
  write_error, bad_request, internal_error,
}
use bedem_waf.ControlApi.Handlers.{Decoders, EventStore, checked}

module _ (go : Go) (io : Decoders) (ctx : Context) where
  -- A time that is given must be one of RFC 3339; the zero time stands for none.
  abbrev pub time_or : Message → String → Option Time → Result Reply Time
  time_or message raw none = if raw == "" then ok 0 else err (bad_request ctx message)
  time_or message raw (some t) = if raw == "" then ok 0 else ok t

  unfoldable pub time_of : String → Message → GoMap (List String) → Result Reply Time
  unfolding first_value
  time_of name message values =
      let raw = first_value name values in time_or message raw (io.parse_time raw)

  -- The two times at the end of both functions, and their order.
  unfoldable pub with_times : SearchFilters → GoMap (List String) → Result Reply SearchFilters
  unfolding time_of
  with_times filters values = do
    from ← time_of "from" (text "from must be RFC3339") values
    to ← time_of "to" (text "to must be RFC3339") values
    refuse (is_reversed from to) (bad_request ctx (text "from must be before to"))
    ok (record filters { from = from; to = to })

  abbrev pub bad_limit : Result Reply ℤ
  bad_limit = err (bad_request ctx (text "limit must be between 1 and 1000"))

  abbrev pub limit_or : String → Option ℤ → Result Reply ℤ
  limit_or raw none = if raw == "" then ok default_limit else bad_limit
  limit_or raw (some n) =
      if raw == ""
      then ok default_limit
      else if ltb_ℤ n (pos 1) || ltb_ℤ max_limit n
      then bad_limit
      else ok n

  abbrev pub no_filters : SearchFilters
  no_filters = record {
    tenant_id = ctx.tenant_id;
    app_id = "";
    policy_id = "";
    host = "";
    action = "";
    client_ip = "";
    matched_rule_id = "";
    from = 0;
    to = 0;
    limit = pos 0;
  }

  unfoldable pub parse_simulation_filters :
      String → GoMap (List String) → Result Reply SearchFilters
  unfolding trim_space with_times
  parse_simulation_filters raw_policy_id values = do
    let policy_id = trim_space go raw_policy_id
    refuse (policy_id == "") (bad_request ctx (text "policy_id is required"))
    with_times (record no_filters { policy_id = policy_id; limit = max_limit }) values

  unfoldable pub parse_event_filters : GoMap (List String) → Result Reply SearchFilters
  unfolding trim_space first_value with_times
  parse_event_filters values = do
    let query_tenant = trim_space go (first_value "tenant_id" values)
    refuse (not (query_tenant == "") && not (query_tenant == ctx.tenant_id))
        (bad_request ctx (text "tenant_id query parameter must match tenant context"))
    let raw = first_value "limit" values
    limit ← limit_or raw (io.atoi raw)
    with_times
        (record no_filters {
          app_id = first_value "app_id" values;
          host = first_value "host" values;
          action = first_value "action" values;
          client_ip = first_value "client_ip" values;
          matched_rule_id = first_value "matched_rule_id" values;
          limit = limit;
        })
        values

-- The answer behind a search, in which every error is a bad request.
abbrev pub searched :
    {R : Type 0} → Context → (List Event → Reply) → Result SearchError (List Event) × R → Reply × R
searched ctx good (ok found, s) = (good found, s)
searched ctx good (err e, s) = (bad_request ctx (search_text e), s)

abbrev pub event_error : Context → SearchError → Reply
event_error ctx event_not_found = write_error ctx 404 "not_found" (text "event not found")
event_error ctx _ = internal_error ctx

abbrev pub event_answer : {R : Type 0} → Context → Result SearchError Event × R → Reply × R
event_answer ctx (ok e, s) = (write_json 200 (event e), s)
event_answer ctx (err e, s) = (event_error ctx e, s)

module _ (go : Go) (io : Decoders) {R : Type 0} (store : EventStore R) (ctx : Context)
    (r : ApiRequest) (s : R) where
  unfoldable pub get_policy_simulation_summary : Reply × R
  unfolding parse_simulation_filters build_simulation_summary
  get_policy_simulation_summary =
      checked (parse_simulation_filters go io ctx (r.path_value "policy_id") r.query) s (λ f.
        searched ctx
          (λ found.
            write_json 200 (simulation f.policy_id f.from f.to (build_simulation_summary go found)))
          (store.search s f))

  unfoldable pub list_events : Reply × R
  unfolding parse_event_filters
  list_events =
      checked (parse_event_filters go io ctx r.query) s
        (λ f. searched ctx (λ found. write_json 200 (events found)) (store.search s f))

  unfoldable pub get_event : Reply × R
  get_event = event_answer ctx (store.get_by_request_id s ctx.tenant_id (r.path_value "event_id"))
