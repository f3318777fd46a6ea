-- ===== src/ControlApi/Database/Apps.antt =====
-- GetApp, CreateApp, UpdateApp, listOrigins and insertOrigin of db.go.
use bedem_waf.Common.{
  String, Option, none, some, List, [], ◌∷◌, ◌==◌, map, is_nonempty, if◌then◌else◌,
}
use bedem_waf.Common.Int.{pos, ltb_ℤ}
use bedem_waf.Common.Result.{Result, ok, err}
use bedem_waf.Go.{Go}
use bedem_waf.Go.Strings.{concat}
use bedem_waf.Go.Text.{to_lower}
use bedem_waf.ControlApi.{OriginUrl}
use bedem_waf.ControlApi.Models.{
  App, Origin, CreateAppRequest, UpdateAppRequest, CreatePolicyRequest, Policy, DbError, db_failed,
  Stored,
}
use bedem_waf.ControlApi.Database.{
  Database, Codecs, Queried, Step, ◌>>=◌, ◌>>◌, done, run_row, run, from_option, transact,
  or_missing,
}
use bedem_waf.ControlApi.Database.Policies.{or_old, created_policy}

-- The port of an origin, or that of its scheme.
unfoldable pub port_of : OriginUrl → String
port_of u = if u.port == "" then if u.scheme == "https" then "443" else "80" else u.port

-- `metadata`, or an empty object
unfoldable pub metadata_or_empty : String → String
metadata_or_empty metadata = if metadata == "" then "{}" else metadata

-- The app with the changes of a request, but the origin.
unfoldable pub changed_app : UpdateAppRequest → App → App
changed_app req current = record current {
  name = or_old req.name current.name;
  hostnames = if is_nonempty req.hostnames then req.hostnames else current.hostnames;
  status = or_old req.status current.status;
  metadata = if req.metadata == "" then current.metadata else req.metadata;
}

module _ (go : Go) (codecs : Codecs) {D T : Type 0} (db : Database D T) where
  unfoldable pub listed_origin : Origin → Origin
  unfolding concat
  listed_origin o = record o {
    url = concat (
        o.scheme
        ∷ "://"
        ∷ o.host
        ∷ (if ltb_ℤ (pos 0) o.port then ":" ∷ go.itoa o.port ∷ [] else []));
  }

  unfoldable pub insert_origin : String → String → OriginUrl → Step T Origin
  unfolding port_of to_lower concat
  insert_origin tenant_id app_id u = do
    port ← from_option (codecs.atoi (port_of u))
    o ← run (λ t. db.insert_origin_row t tenant_id app_id u.scheme (to_lower go u.hostname) port)
    done (record o { url = concat (o.scheme ∷ "://" ∷ o.host ∷ ":" ∷ go.itoa o.port ∷ []) })

  abbrev pub with_origins : App → Queried (List Origin) → Result DbError App
  with_origins app (ok origins) = ok (record app { origins = map listed_origin origins })
  with_origins app (err e) = err db_failed

  abbrev pub found_with_origins : D → Result DbError App → Result DbError App
  found_with_origins d (ok app) = with_origins app (db.select_origins d app.id)
  found_with_origins d (err e) = err e

  unfoldable pub get_app : D → String → String → Stored D App
  get_app d tenant_id id = (found_with_origins d (or_missing (db.select_app d tenant_id id)), d)

  unfoldable pub create_steps : CreateAppRequest → OriginUrl → Step T App
  create_steps req u = do
    app ← run (λ t.
        db.insert_app t req.tenant_id req.name req.slug req.hostnames
          (metadata_or_empty req.metadata))
    origin ← insert_origin app.tenant_id app.id u
    done (record app { origins = origin ∷ [] })

  unfoldable pub create_app : D → CreateAppRequest → OriginUrl → Stored D App
  create_app d req u = transact db d (create_steps req u)

  -- The new origin of an update, if it has one.
  unfoldable pub replace_origin : String → String → App → Option OriginUrl → Step T App
  unfolding done
  replace_origin tenant_id id app none = done app
  replace_origin tenant_id id app (some u) = do
    run (λ t. db.delete_origins t tenant_id id)
    origin ← insert_origin app.tenant_id app.id u
    done (record app { origins = origin ∷ [] })

  -- The row that the update returns, with the origins that were read before.
  unfoldable pub change_steps :
      String → String → UpdateAppRequest → Option OriginUrl → App → Step T App
  change_steps tenant_id id req u current = do
    let changed = changed_app req current
    row ← run_row (λ t.
        db.update_app_row t id changed.name changed.hostnames changed.status changed.metadata
          tenant_id)
    replace_origin tenant_id id (record row { origins = current.origins }) u

  -- Behind the commit: without a new origin the origins are read again.
  abbrev pub reread : Option OriginUrl → Stored D App → Stored D App
  reread (some u) answer = answer
  reread none (err e, d) = (err e, d)
  reread none (ok app, d) = (with_origins app (db.select_origins d app.id), d)

  abbrev pub updated_app :
      D → String → String → UpdateAppRequest → Option OriginUrl → Result DbError App → Stored D App
  updated_app d tenant_id id req u (err e) = (err e, d)
  updated_app d tenant_id id req u (ok current) =
      reread u (transact db d (change_steps tenant_id id req u current))

  unfoldable pub update_app :
      D → String → String → UpdateAppRequest → Option OriginUrl → Stored D App
  update_app d tenant_id id req u =
      updated_app d tenant_id id req u
        (found_with_origins d (or_missing (db.select_app d tenant_id id)))

  -- CreatePolicy, which reads the app first
  unfoldable pub create_policy : D → String → String → CreatePolicyRequest → Stored D Policy
  create_policy d tenant_id app_id req =
      created_policy go codecs db d app_id req
        (found_with_origins d (or_missing (db.select_app d tenant_id app_id)))
