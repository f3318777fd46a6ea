-- ===== src/Tests/Services.antt =====
-- Examples of the rate limiter, the caching provider and the audit dispatcher.
use bedem_waf.Common.{
  String, ℕ, zero, suc, ◌+◌, ◌≡◌, ◌≢◌, ◌⊎◌, refl, true, false, none, some, List, [], ◌∷◌, ◌++◌,
  ◌==◌, length, arith,
}
use bedem_waf.Common.Int.{ℤ, pos, negsuc}
use bedem_waf.Common.Result.{ok, err}
use bedem_waf.Go.Maps.{lookup}
use bedem_waf.Policy.{App}
use bedem_waf.Policy.Rules.{new_app}
use bedem_waf.Policy.Host.{normalize_host}
use bedem_waf.Policy.Store.{found_app}
use bedem_waf.RateLimit.{counter_key, applies}
use bedem_waf.RateLimit.Store.{count_of}
use bedem_waf.RateLimit.Window.{Call, serve_calls, calls_for, serve_calls-count}
use bedem_waf.Go.{Go}
use Prim.Native.String.{◌∷◌ as ◌∷s◌}
use bedem_waf.PolicyClient.{
  transport_failed, GatewayPolicy, absent, ControlApi, ProviderState, Settings, add_one, cached_app,
  fresh, failed_open, failed_closed, stale_app, fetch_policy, lookup_at, app_of_answer, to_app,
  origin_url,
}
use bedem_waf.PolicyClient.Lookup.{IsFilled, lookup_at_sound, lookup_at_cached, lookup_at_failed}
use bedem_waf.Audit.Dispatch.{Sink, Dispatcher, clamp_uint16, clamp_uint32}
use bedem_waf.Audit.{Event}
use bedem_waf.Audit.Dispatch.Clamps.{IsNearest, clamp-IsNearest}
use bedem_waf.Audit.Dispatch.Delivery.{
  Step, logs, works, run, queued, all_given, turns, run_in_order, run_drains, run_accounts,
}
use bedem_waf.Tests.Samples.{sample_go, shop, client_limit, limiter_query, blank_event}

abbrev call : Call
call = record { now = 100; app = shop; request = limiter_query; rule = client_limit }

abbrev two_calls : List Call
two_calls = call ∷ call ∷ []

applies-call : applies sample_go shop limiter_query client_limit ≡ true
unfolding applies
applies-call = refl

-- Numbers in tallies: a number can be read back.
tally : ℕ → String
tally zero = ""
tally (suc n) = "1" ∷s tally n

tally_of : ℤ → String
tally_of (pos n) = tally n
tally_of (negsuc n) = "-"

abbrev tally_go : Go
tally_go = record sample_go { itoa = tally_of }

empty-count : count_of (counter_key sample_go 100 shop limiter_query client_limit) [] ≡ pos 0
unfolding count_of lookup
empty-count = refl

serve_calls-count_example :
    count_of
      (counter_key sample_go 100 shop limiter_query client_limit)
      (serve_calls sample_go true [] two_calls)
    ≡ pos (
        0
        + calls_for sample_go true
            (counter_key sample_go 100 shop limiter_query client_limit)
            two_calls)
serve_calls-count_example =
    serve_calls-count sample_go true [] two_calls
      (counter_key sample_go 100 shop limiter_query client_limit) 0 empty-count (omega arith)

-- A control API that answers with one policy, and one that cannot be reached.
abbrev remote_policy : GatewayPolicy
remote_policy = record {
  tenant_id = "t";
  app_id = "shop";
  policy_id = "p";
  policy_version_id = "v1";
  mode = "block";
  origin = record { url = "http://origin"; scheme = ""; host = ""; port = pos 0 };
  ip_sets = absent;
  custom_rules = absent;
  rate_limits = absent;
}

abbrev live_api : ControlApi (Unit {0})
live_api = record { get_policy = λ n host. (some (pos 200, some remote_policy), n) }

abbrev dead_api : ControlApi (Unit {0})
dead_api = record { get_policy = λ n host. (none, n) }

abbrev strict : Settings
strict = record { ttl = 1000; fail_behavior = "fail_closed" }

abbrev empty_provider : ProviderState (Unit {0})
empty_provider = record { cache = []; hits = 0; misses = 0; fetch_errors = 0; network = tt }

abbrev remote_shop : App
remote_shop = record shop {
  tenant_id = "t";
  policy_id = "p";
  policy_version = "v1";
  rate_limits = [];
  custom_rules = [];
}

named-shop : (normalize_host sample_go "shop.test" == "") ≡ false
unfolding normalize_host
named-shop = refl

nothing_cached : (now : ℕ) → fresh empty_provider (normalize_host sample_go "shop.test") now ≡ none
unfolding fresh lookup
nothing_cached now = refl

fetched-shop :
    (fetch_policy sample_go live_api tt (normalize_host sample_go "shop.test")).0 ≡ ok remote_shop
unfolding fetch_policy app_of_answer to_app new_app normalize_host origin_url
fetched-shop = refl

fetch-fails :
    (fetch_policy sample_go dead_api tt (normalize_host sample_go "shop.test")).0
    ≡ err transport_failed
unfolding fetch_policy app_of_answer
fetch-fails = refl

empty-IsFilled : IsFilled empty_provider.cache
unfolding lookup
empty-IsFilled host = tt

lookup_at_sound_example :
    ((lookup_at sample_go live_api strict 5 6 empty_provider "shop.test").0.found ≡ true
      → (lookup_at sample_go live_api strict 5 6 empty_provider "shop.test").0.app ≢ none)
    × IsFilled (lookup_at sample_go live_api strict 5 6 empty_provider "shop.test").1.cache
lookup_at_sound_example =
    lookup_at_sound sample_go live_api strict 5 6 empty_provider "shop.test" empty-IsFilled

abbrev behind_fetch : ProviderState (Unit {0})
behind_fetch = (lookup_at sample_go live_api strict 5 6 empty_provider "shop.test").1

lookup_at_cached_example :
    ((lookup_at sample_go live_api strict 900 901 behind_fetch "shop.test").0
      ≡ found_app remote_shop)
    × ((lookup_at sample_go live_api strict 900 901 behind_fetch "shop.test").1
        ≡ record behind_fetch { hits = add_one 0 })
lookup_at_cached_example =
    lookup_at_cached sample_go live_api strict empty_provider "shop.test" remote_shop 5 6 900 901
      named-shop (nothing_cached 5) (nothing_cached 6) fetched-shop (omega arith)

lookup_at_failed_example :
    ((lookup_at sample_go dead_api strict 5 6 empty_provider "shop.test").1.cache ≡ [])
    × (((app : App) × (cached_app (lookup (normalize_host sample_go "shop.test") []) ≡ some app)
          × ((lookup_at sample_go dead_api strict 5 6 empty_provider "shop.test").0
              ≡ stale_app app))
        ⊎ ((cached_app (lookup (normalize_host sample_go "shop.test") []) ≡ none)
            × (strict.fail_behavior ≡ "fail_closed")
            × ((lookup_at sample_go dead_api strict 5 6 empty_provider "shop.test").0
                ≡ failed_closed))
        ⊎ ((cached_app (lookup (normalize_host sample_go "shop.test") []) ≡ none)
            × (strict.fail_behavior ≢ "fail_closed")
            × ((lookup_at sample_go dead_api strict 5 6 empty_provider "shop.test").0
                ≡ failed_open)))
lookup_at_failed_example =
    lookup_at_failed sample_go dead_api strict empty_provider "shop.test" transport_failed 5 6
      named-shop (nothing_cached 5) (nothing_cached 6) fetch-fails

-- A sink that takes everything and counts it, and a dispatcher with room for one event.
abbrev sink : Sink ℕ
sink = λ n e. (true, suc n)

abbrev one_place : Dispatcher ℕ
one_place = record {
  capacity = 1;
  queue = [];
  sent = 0;
  dropped = 0;
  blocked = 0;
  allowed = 0;
  sinks = 0;
}

abbrev busy : List Step
busy = logs blank_event ∷ logs blank_event ∷ works ∷ logs blank_event ∷ []

run_in_order_example :
    (delivered : List Event) × ((run (sink ∷ []) busy one_place).sinks
      ≡ all_given (sink ∷ []) 0 delivered)
    × (delivered ++ (run (sink ∷ []) busy one_place).queue
        ≡ [] ++ queued (sink ∷ []) busy one_place)
run_in_order_example = run_in_order (sink ∷ []) busy one_place

run_accounts_example :
    (run (sink ∷ []) busy one_place).dropped + length (queued (sink ∷ []) busy one_place) ≡ 0 + 3
run_accounts_example = run_accounts (sink ∷ []) busy one_place (omega arith)

abbrev waiting : Dispatcher ℕ
waiting = record one_place { queue = blank_event ∷ [] }

run_drains_example :
    ((run (sink ∷ []) (turns (sink ∷ []) waiting.queue) waiting).queue ≡ [])
    × ((run (sink ∷ []) (turns (sink ∷ []) waiting.queue) waiting).sinks
        ≡ all_given (sink ∷ []) 0 waiting.queue)
run_drains_example = run_drains (sink ∷ []) waiting

clamp-IsNearest_example :
    IsNearest 16 (pos 70000) (clamp_uint16 (pos 70000))
    × IsNearest 32 (pos 70000) (clamp_uint32 (pos 70000))
clamp-IsNearest_example = clamp-IsNearest (pos 70000)
