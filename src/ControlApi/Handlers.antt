-- ===== src/ControlApi/Handlers.antt =====
-- services/control-api/internal/httpapi/server.go: what the handlers share. The handlers are in the
-- children, one function for each, with the checks of its request as a second one.
pub mod Apps
pub mod Policies
pub mod Searches
pub mod Tenancy
pub mod Valid
pub mod Kept
use bedem_waf.Common.{String, Option, List}
use bedem_waf.Common.Int.{ℤ}
use bedem_waf.Common.Result.{Result, ok, err}
use bedem_waf.ControlApi.Names.{NameError}
use bedem_waf.ControlApi.Snapshot.{SnapshotError}
use bedem_waf.ControlApi.Events.{Time, SearchFilters, Event}
use bedem_waf.ControlApi.Events.Search.{SearchError}
use bedem_waf.ControlApi.Models.{
  CreateTenantRequest, CreateAppRequest, UpdateAppRequest, CreatePolicyRequest, UpdatePolicyRequest,
  DbError, not_found, conflict, db_failed, Stored,
}
use bedem_waf.ControlApi.Http.{
  RequestBody, Context, Reply, Decoded, Message, text, name_text, snapshot_text, write_error,
  bad_request, internal_error,
}

-- The JSON decoders of the requests, `time.Parse` with RFC3339, and `strconv.Atoi`.
pub record Decoders : Type 0 where
  pub create_tenant_request : RequestBody → Decoded CreateTenantRequest
  pub create_app_request : RequestBody → Decoded CreateAppRequest
  pub update_app_request : RequestBody → Decoded UpdateAppRequest
  pub create_policy_request : RequestBody → Decoded CreatePolicyRequest
  pub update_policy_request : RequestBody → Decoded UpdatePolicyRequest
  pub parse_time : String → Option Time
  pub atoi : String → Option ℤ

-- events.Store
pub record EventStore (R : Type 0) : Type 0 where
  pub search : R → SearchFilters → Result SearchError (List Event) × R
  pub get_by_request_id : R → String → String → Result SearchError Event × R

abbrev pub handle_read_error : Context → DbError → Reply
handle_read_error ctx not_found = write_error ctx 404 "not_found" (text "resource not found")
handle_read_error ctx conflict =
    write_error ctx 409 "conflict" (text "resource was modified; refresh and retry")
handle_read_error ctx db_failed = internal_error ctx

-- `s.internalError` for every error
abbrev pub hide_error : Context → DbError → Reply
hide_error ctx e = internal_error ctx

-- The answer behind a call of the repository.
abbrev pub answered : {R A : Type 0} → (DbError → Reply) → (A → Reply) → Stored R A → Reply × R
answered bad good (ok a, s) = (good a, s)
answered bad good (err e, s) = (bad e, s)

-- A handler goes on behind a check, or has written its answer and calls nothing.
unfoldable pub checked : {R A : Type 0} → Result Reply A → R → (A → Reply × R) → Reply × R
checked (err reply) s next = (reply, s)
checked (ok a) s next = next a

-- A check that failed is a bad request with its text.
abbrev pub or_bad_name : {A : Type 0} → Context → Result NameError A → Result Reply A
or_bad_name ctx (ok a) = ok a
or_bad_name ctx (err e) = err (bad_request ctx (name_text e))

abbrev pub or_bad_snapshot :
    Context → String → Result SnapshotError (Unit {0}) → Result Reply (Unit {0})
or_bad_snapshot ctx code (ok x) = ok tt
or_bad_snapshot ctx code (err e) = err (write_error ctx 400 code (snapshot_text e))
