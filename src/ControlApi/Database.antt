-- ===== src/ControlApi/Database.antt =====
-- services/control-api/internal/db/db.go. Each SQL statement is an operation of an interface, with
-- the values that the source passes to it. A read or a single statement outside a transaction works on
-- the database; a transaction works on a state of its own, which replaces the database at its commit
-- and is dropped at a rollback.
pub mod Policies
pub mod Apps
pub mod Steps
pub mod Atomic
use bedem_waf.Common.{ℕ, String, Bool, Option, none, some, List, ◌==◌, ◌||◌, if◌then◌else◌}
use bedem_waf.Common.Int.{ℤ}
use bedem_waf.Common.Result.{Result, ok, err}
use bedem_waf.ControlApi.Events.{Time}
use bedem_waf.ControlApi.Models.{
  App, Origin, Policy, GatewayPolicy, DbError, not_found, db_failed, Stored,
}

-- pgx.ErrNoRows, and any other error.
pub data QueryError : Type 0 where
  no_rows query_failed : QueryError

abbrev pub Queried : Type 0 → Type 0
Queried A = Result QueryError A

-- A statement of a transaction.
abbrev pub Ran : Type 0 → Type 0 → Type 0
Ran T A = Queried A × T

-- policyDraft: raw JSON texts, the empty one for a missing key
pub record PolicyDraft : Type 0 where
  pub mode : String
  pub ip_sets : String
  pub custom_rules : String
  pub rate_limits : String
  pub waf : String

pub record Database (D T : Type 0) : Type 0 where
  pub begin : D → Option T
  pub commit : T → Option D
  -- GetApp, listOrigins and GetPolicy; the origins come without their URL
  pub select_app : D → String → String → Queried App
  pub select_origins : D → String → Queried (List Origin)
  pub select_policy : D → String → String → Queried Policy
  -- CreatePolicy: tenant, app, name, mode, metadata
  pub insert_policy : D → String → String → String → String → String → Queried Policy × D
  -- CreateApp: tenant, name, slug, hostnames, metadata
  pub insert_app : T → String → String → String → List String → String → Ran T App
  -- insertOrigin: tenant, app, scheme, host, port
  pub insert_origin_row : T → String → String → String → String → ℤ → Ran T Origin
  -- UpdateApp: id, name, hostnames, status, metadata, tenant
  pub update_app_row : T → String → String → List String → String → String → String → Ran T App
  pub delete_origins : T → String → String → Ran T (Unit {0})
  -- getPolicyForUpdate: tenant, id
  pub select_policy_for_update : T → String → String → Ran T Policy
  -- UpdatePolicy: id, name, mode, enabled, metadata, tenant
  pub update_policy_row : T → String → String → String → Bool → String → String → Ran T Policy
  -- PublishPolicy
  pub next_version : T → String → Ran T ℤ
  pub new_version_id : T → Ran T (String × Time)
  pub select_primary_origin : T → String → Ran T Origin
  -- the id, the policy, its version, the snapshot and its checksum, and the time
  pub insert_version : T → String → Policy → ℤ → String → String → Time → Ran T (String × Time)
  pub activate_version : T → String → String → String → Ran T (Unit {0})
  pub upsert_deployment : T → Policy → String → Ran T (Unit {0})

-- The JSON encoders and decoders, and `strconv.Atoi`.
pub record Codecs : Type 0 where
  pub atoi : String → Option ℤ
  pub decode_draft : String → Option PolicyDraft
  -- json.Marshal of a map with the one key `snapshot`; a text that is no JSON has none
  pub encode_metadata : String → Option String
  pub encode_gateway_policy : GatewayPolicy → Option String

-- A step of a transaction: it returns an error or goes on.
abbrev pub Step : Type 0 → Type 0 → Type 0
Step T A = T → Result DbError A × T

abbrev pub step_on : {T A B : Type 0} → (A → Step T B) → Result DbError A × T → Result DbError B × T
step_on next (ok a, t) = next a t
step_on next (err e, t) = (err e, t)

infixl 5 ◌>>=◌ ◌>>◌
unfoldable pub ◌>>=◌ : {T A B : Type 0} → Step T A → (A → Step T B) → Step T B
(m >>= f) t = step_on f (m t)

unfoldable pub ◌>>◌ : {T B : Type 0} → Step T (Unit {0}) → Step T B → Step T B
unfolding ◌>>=◌
m >> k = m >>= λ _. k

unfoldable pub done : {T A : Type 0} → A → Step T A
done a t = (ok a, t)

unfoldable pub failed : {T A : Type 0} → DbError → Step T A
failed e t = (err e, t)

-- `if errors.Is(err, pgx.ErrNoRows) { return ErrNotFound }`
abbrev pub row_error : QueryError → DbError
row_error no_rows = not_found
row_error query_failed = db_failed

abbrev pub or_missing : {A : Type 0} → Queried A → Result DbError A
or_missing (ok a) = ok a
or_missing (err e) = err (row_error e)

-- Every error of the statement is returned as it is.
abbrev pub or_failed : {A : Type 0} → Queried A → Result DbError A
or_failed (ok a) = ok a
or_failed (err e) = err db_failed

unfoldable pub run_row : {T A : Type 0} → (T → Ran T A) → Step T A
run_row statement t = let (r, t') = statement t in (or_missing r, t')

unfoldable pub run : {T A : Type 0} → (T → Ran T A) → Step T A
run statement t = let (r, t') = statement t in (or_failed r, t')

unfoldable pub from_option : {T A : Type 0} → Option A → Step T A
from_option none t = (err db_failed, t)
from_option (some a) t = (ok a, t)

-- Begin, the body, and a commit; any error rolls back.
module _ {D T : Type 0} (db : Database D T) where
  abbrev pub committed : {A : Type 0} → D → A → Option D → Stored D A
  committed d a none = (err db_failed, d)
  committed d a (some d') = (ok a, d')

  abbrev pub finished : {A : Type 0} → D → Result DbError A × T → Stored D A
  finished d (err e, t) = (err e, d)
  finished d (ok a, t) = committed d a (db.commit t)

  abbrev pub begun : {A : Type 0} → D → Step T A → Option T → Stored D A
  begun d body none = (err db_failed, d)
  begun d body (some t) = finished d (body t)

  unfoldable pub transact : {A : Type 0} → D → Step T A → Stored D A
  transact d body = begun d body (db.begin d)

-- defaultRaw
unfoldable pub default_raw : String → String → String
default_raw value fallback = if value == "" || value == "null" then fallback else value

-- metadataWithSnapshot, which every caller gives no metadata
unfoldable pub metadata_with_snapshot : Codecs → String → Option String
unfolding default_raw
metadata_with_snapshot codecs snapshot = codecs.encode_metadata (default_raw snapshot "{}")
