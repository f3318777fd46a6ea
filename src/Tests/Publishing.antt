-- ===== src/Tests/Publishing.antt =====
-- Examples of the names and snapshots of the control API, and of its searches and summaries.
use bedem_waf.Common.{
  ◌≡◌, ◌≢◌, refl, String, false, some, List, [], ◌∷◌, ◌==◌, All, map, Bool-cases, inl, inr, eq_iff,
}
use bedem_waf.Common.Int.{pos, ◌≤ℤ◌}
use bedem_waf.Common.Order.{IsOrdered}
use bedem_waf.Common.Result.{ok}
use bedem_waf.Go.Maps.{GoMap, lookup}
use bedem_waf.Go.Text.{trim_space}
use bedem_waf.Policy.{App}
use bedem_waf.Policy.Host.{normalize_host}
use bedem_waf.Policy.Rules.Order.{AreDistinct}
use bedem_waf.PolicyClient.{to_app, origin_url}
use bedem_waf.ControlApi.Names.{validate_hostnames, without_port}
use bedem_waf.ControlApi.Names.Hosts.{IsRoutable, validate_hostnames-IsRoutable}
use bedem_waf.ControlApi.Snapshot.{validate_decoded, check_cidr}
use bedem_waf.ControlApi.Snapshot.Deployable.{TakesNoSpace}
use bedem_waf.ControlApi.Snapshot.Loaded.{Carries, IsComplete, accepted_snapshot_loads}
use bedem_waf.ControlApi.Events.{Event}
use bedem_waf.ControlApi.Events.Search.{build_search_query, query_of, effective_limit, max_limit}
use bedem_waf.ControlApi.Events.Search.Safety.{shape_of, clauses_for, build_search_query_sound}
use bedem_waf.ControlApi.Events.Summary.{build_simulation_summary, rule_id_of, summary_before}
use bedem_waf.ControlApi.Events.Summary.Counts.{total_for, blocks_of, total_counted}
use bedem_waf.ControlApi.Events.Summary.Entries.{
  HaveDistinctRules, IsAtLeast, IsWithin, build_simulation_summary_shape,
}
use bedem_waf.Tests.Samples.{sample_go, admin_rule_config, limit_config}
use bedem_waf.Tests.ControlSamples.{shop_snapshot, shop_policy, acme_filters, blocked_event}

abbrev two_names : List String
two_names = " Shop.TEST:8443 " ∷ "api.shop.test" ∷ []

two_names_accepted : validate_hostnames sample_go two_names ≡ ok tt
unfolding validate_hostnames without_port
two_names_accepted = refl

validate_hostnames-IsRoutable_example :
    (two_names ≢ [])
    × All (IsRoutable sample_go) two_names
    × AreDistinct (map (normalize_host sample_go) two_names)
validate_hostnames-IsRoutable_example =
    validate_hostnames-IsRoutable sample_go two_names two_names_accepted

sample_go-TakesNoSpace : TakesNoSpace sample_go
unfolding trim_space
sample_go-TakesNoSpace s p h = elim (Bool-cases (s == "203.0.113.0/24")) [
  | inl e ↦ rw ((eq_iff s "203.0.113.0/24").0 e) refl
  | inr e ↦ let g = rw e at h in cc
]

abbrev shop_carries : Carries shop_snapshot shop_policy
shop_carries = record {
  rules = admin_rule_config ∷ [];
  limits = limit_config ∷ [];
  same_rules = refl;
  same_limits = refl;
  ip_sets_text = refl;
  rules_text = refl;
  limits_text = refl;
}

shop-IsComplete : IsComplete sample_go shop_snapshot shop_policy shop_carries
unfolding trim_space origin_url
shop-IsComplete = record {
  rule_ids = (tt, tt);
  limit_ids = (tt, tt);
  rule_statuses = (refl, tt);
  limit_statuses = (refl, tt);
  set_names = (refl, tt);
  identified = refl;
  located = refl;
  origin = record { scheme = "http"; host = "origin" };
  origin_parsed = refl;
  origin_whole = refl;
}

shop_snapshot_accepted : validate_decoded sample_go shop_snapshot ≡ ok tt
unfolding validate_decoded check_cidr
shop_snapshot_accepted = refl

accepted_snapshot_loads_example : (app : App) × (to_app sample_go shop_policy "shop.test" ≡ ok app)
accepted_snapshot_loads_example =
    accepted_snapshot_loads sample_go sample_go-TakesNoSpace shop_snapshot shop_policy shop_carries
      shop-IsComplete shop_snapshot_accepted "shop.test"

abbrev acme_search : List String × GoMap String
acme_search = (
  query_of (
      "1 = 1" ∷ "tenant_id = {tenant_id:String}" ∷ "host = {host:String}"
      ∷ "action = {action:String}" ∷ "timestamp >= parseDateTime64BestEffort({from:String}, 3)"
      ∷ "timestamp <= parseDateTime64BestEffort({to:String}, 3)" ∷ []),
  ("limit", "1")
      ∷ ("tenant_id", "acme")
      ∷ ("host", "shop.test")
      ∷ ("action", "block")
      ∷ ("from", "time")
      ∷ ("to", "time")
      ∷ [],
)

acme_search_built : build_search_query sample_go (λ t. "time") acme_filters ≡ ok acme_search
unfolding build_search_query
acme_search_built = refl

acme_given : (trim_space sample_go "acme" == "") ≡ false
unfolding trim_space
acme_given = refl

build_search_query_sound_example :
    (acme_search.0 ≡ query_of (clauses_for (shape_of sample_go acme_filters)))
    × (pos 1 ≤ℤ effective_limit acme_filters)
    × (effective_limit acme_filters ≤ℤ max_limit)
    × (lookup "limit" acme_search.1 ≡ some "1")
    × (lookup "tenant_id" acme_search.1 ≡ some (trim_space sample_go "acme"))
build_search_query_sound_example =
    build_search_query_sound sample_go (λ t. "time") acme_filters acme_search.0 acme_search.1
      acme_search_built acme_given

abbrev three_events : List Event
three_events = blocked_event "a" "r1" ∷ blocked_event "b" " " ∷ blocked_event "c" "r1" ∷ []

total_counted_example :
    total_for "r1" (build_simulation_summary sample_go three_events)
    ≡ blocks_of sample_go "r1" three_events
total_counted_example = total_counted sample_go "r1" three_events

two_blocks : blocks_of sample_go "r1" three_events ≡ 2
unfolding blocks_of rule_id_of
two_blocks = refl

build_simulation_summary_shape_example :
    HaveDistinctRules (build_simulation_summary sample_go three_events)
    × IsOrdered summary_before IsAtLeast (build_simulation_summary sample_go three_events)
    × All IsWithin (build_simulation_summary sample_go three_events)
build_simulation_summary_shape_example = build_simulation_summary_shape sample_go three_events
