-- ===== src/Tests/Databases.antt =====
-- Examples of the transactions, on a database of one policy.
use bedem_waf.Common.{◌≡◌, refl, none, some, [], ◌⊎◌, ◌==◌, ◌&&◌, if◌then◌else◌}
use bedem_waf.Common.Int.{pos}
use bedem_waf.Common.Result.{ok, err}
use bedem_waf.ControlApi.Models.{Origin, Policy, UpdatePolicyRequest, DbError, conflict, not_found}
use bedem_waf.ControlApi.Database.{
  Database, Codecs, no_rows, ◌>>=◌, ◌>>◌, done, failed, run_row, run, from_option, transact,
  metadata_with_snapshot, default_raw,
}
use bedem_waf.ControlApi.Database.Policies.{
  changed_policy, unchanged_since, decode_draft, update_steps, update_policy, publish_policy,
  publish_steps, compile_gateway_policy, compiled_policy, get_primary_origin,
}
use bedem_waf.ControlApi.Database.Atomic.{IsUpdated, update_policy_cases}
use bedem_waf.Tests.Samples.{sample_go}
use bedem_waf.Tests.ControlSamples.{stored_policy}

abbrev primary_origin : Origin
primary_origin = record {
  id = "o1";
  name = "primary";
  scheme = "http";
  host = "origin";
  port = pos 80;
  url = "";
}

-- A transaction works on a copy of the policy.
abbrev one_policy : Database Policy Policy
one_policy = record {
  begin = λ d. some d;
  commit = λ t. some t;
  select_app = λ d tenant id. err no_rows;
  select_origins = λ d id. ok [];
  select_policy = λ d tenant id. if tenant == d.tenant_id && id == d.id then ok d else err no_rows;
  insert_policy = λ d tenant app name mode metadata. (err no_rows, d);
  insert_app = λ t tenant name slug hostnames metadata. (err no_rows, t);
  insert_origin_row = λ t tenant app scheme host port. (ok primary_origin, t);
  update_app_row = λ t id name hostnames status metadata tenant. (err no_rows, t);
  delete_origins = λ t tenant app. (ok tt, t);
  select_policy_for_update =
      λ t tenant id. (if tenant == t.tenant_id && id == t.id then ok t else err no_rows, t);
  update_policy_row = λ t id name mode enabled metadata tenant. (
    ok (record t { name = name; mode = mode; enabled = enabled; updated_at = 2 }),
    record t { name = name; mode = mode; enabled = enabled; updated_at = 2 },
  );
  next_version = λ t id. (ok (pos 1), t);
  new_version_id = λ t. (ok ("v1", 3), t);
  select_primary_origin = λ t app. (ok primary_origin, t);
  insert_version = λ t id p version snapshot checksum time. (ok (id, time), t);
  activate_version = λ t id version tenant. (ok tt, record t { active_version_id = version });
  upsert_deployment = λ t p version. (ok tt, t);
}

abbrev codecs : Codecs
codecs = record {
  atoi = λ s. none;
  decode_draft = λ s.
      some (record { mode = "block"; ip_sets = ""; custom_rules = ""; rate_limits = ""; waf = "" });
  encode_metadata = λ s. some s;
  encode_gateway_policy = λ p. some p.mode;
}

abbrev stored : Policy
stored = stored_policy "{shop}"

abbrev renamed : UpdatePolicyRequest
renamed = record {
  name = some "edge";
  mode = none;
  enabled = none;
  snapshot = "";
  expected_updated_at = 1;
}

-- The row changed since the client has read it.
abbrev stale : UpdatePolicyRequest
stale = record renamed { expected_updated_at = 7 }

update_policy_cases_example :
    ((e : DbError) × (update_policy sample_go codecs one_policy stored "acme" "p1" renamed
        ≡ (err e, stored)))
    ⊎ IsUpdated sample_go codecs one_policy stored "acme" "p1" renamed
        (update_policy sample_go codecs one_policy stored "acme" "p1" renamed)
update_policy_cases_example =
    update_policy_cases sample_go codecs one_policy stored "acme" "p1" renamed

-- The example above commits.
update_commits : update_policy sample_go codecs one_policy stored "acme" "p1" renamed ≡ (
  ok (record stored { name = "edge"; updated_at = 2 }),
  record stored { name = "edge"; updated_at = 2 },
)
unfolding update_policy transact update_steps ◌>>=◌ ◌>>◌ run_row from_option unchanged_since done
    changed_policy metadata_with_snapshot default_raw
update_commits = refl

update_conflicts :
    update_policy sample_go codecs one_policy stored "acme" "p1" stale ≡ (err conflict, stored)
unfolding update_policy transact update_steps ◌>>=◌ ◌>>◌ run_row unchanged_since failed
update_conflicts = refl

publish_misses :
    publish_policy sample_go codecs one_policy stored "other" "p1" ≡ (err not_found, stored)
unfolding publish_policy transact publish_steps ◌>>=◌ run_row
publish_misses = refl

publish_commits : publish_policy sample_go codecs one_policy stored "acme" "p1" ≡ (
  ok (record { policy_id = "p1"; policy_version_id = "v1"; version = pos 1; published_at = 3 }),
  record stored { active_version_id = "v1" },
)
unfolding publish_policy transact publish_steps ◌>>=◌ ◌>>◌ run run_row from_option
    compile_gateway_policy get_primary_origin decode_draft compiled_policy default_raw done
publish_commits = refl
