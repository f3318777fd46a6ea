-- ===== src/PolicyClient.antt =====
-- services/gateway/internal/policyclient/client.go: the provider that fetches policies from the
-- control API and keeps them in a cache. Times are nanoseconds since 1970. The HTTP exchange and the
-- JSON decoder are one operation on a state of their own. The two locks are taken and left within one
-- call.
pub mod Lookup
use bedem_waf.Common.{
  ℕ, suc, ◌+◌, ◌-◌, ◌*◌, ◌%◌, ◌^◌, ltb, String, Bool, true, false, not, ◌&&◌, ◌||◌, Option, none,
  some, List, [], ◌∷◌, ◌==◌, if◌then◌else◌,
}
use bedem_waf.Common.Int.{ℤ, pos, negsuc, pos_part, leb_ℤ, ltb_ℤ, eqb_ℤ, wrap_64}
use bedem_waf.Common.Result.{Result, ok, err, ◌>>=◌, ◌>>◌, refuse, map_err}
use bedem_waf.Go.{Go}
use bedem_waf.Go.Maps.{GoMap, lookup, insert}
use bedem_waf.Go.Strings.{concat}
use bedem_waf.Config.{CustomRuleConfig, RateLimitConfig, PolicyConfig, AppConfig}
use bedem_waf.Policy.{App}
use bedem_waf.Policy.Host.{normalize_host}
use bedem_waf.Policy.Validation.{PolicyError, Parsed}
use bedem_waf.Policy.Rules.{new_app}
use bedem_waf.Policy.Store.{LookupResult, not_found, found_app, Provider}

-- A `json.RawMessage` and what decoding it gives: an empty or null one is nil.
pub data Raw (A : Type 0) : Type 0 where
  absent malformed : Raw A
  decoded : A → Raw A

pub record RemoteOrigin : Type 0 where
  pub url : String
  pub scheme : String
  pub host : String
  pub port : ℤ

-- gatewayPolicy; the fields `waf` and `published_at` are not used.
pub record GatewayPolicy : Type 0 where
  pub tenant_id : String
  pub app_id : String
  pub policy_id : String
  pub policy_version_id : String
  pub mode : String
  pub origin : RemoteOrigin
  pub ip_sets : Raw (GoMap (List String))
  pub custom_rules : Raw (List CustomRuleConfig)
  pub rate_limits : Raw (List RateLimitConfig)

pub data FetchError : Type 0 where
  transport_failed body_malformed identifiers_missing origin_missing : FetchError
  bad_status : ℤ → FetchError
  field_malformed : String → FetchError
  rejected : PolicyError → FetchError

-- decodeIPSets, decodeCustomRules and decodeRateLimits: the rules are copied field by field.
abbrev pub decode : {A : Type 0} → A → String → Raw A → Result FetchError A
decode empty field absent = ok empty
decode empty field malformed = err (field_malformed field)
decode empty field (decoded a) = ok a

abbrev from_parsed : {A : Type 0} → Parsed A → Result FetchError A
from_parsed (ok a) = ok a
from_parsed (err e) = err (rejected e)

-- The control API: the status and the decoded body of the answer for a host name, or none where the
-- exchange fails; the body is none where it does not decode.
pub record ControlApi (N : Type 0) : Type 0 where
  pub get_policy : N → String → Option (ℤ × Option GatewayPolicy) × N

module _ (go : Go) where
  unfoldable pub origin_url : RemoteOrigin → String
  unfolding concat
  origin_url o =
      if o.url == "" && (not (o.scheme == "") && not (o.host == ""))
      then concat (
          o.scheme
          ∷ "://"
          ∷ o.host
          ∷ (if ltb_ℤ (pos 0) o.port then ":" ∷ go.itoa o.port ∷ [] else []))
      else o.url

  -- toApp
  unfoldable pub to_app : GatewayPolicy → String → Result FetchError App
  to_app p hostname = do
    refuse (p.tenant_id == "" || p.app_id == "" || p.policy_id == "" || p.policy_version_id == "")
        identifiers_missing
    let url = origin_url p.origin
    refuse (url == "") origin_missing
    ip_sets ← decode [] "ip_sets" p.ip_sets
    custom_rules ← decode [] "custom_rules" p.custom_rules
    rate_limits ← decode [] "rate_limits" p.rate_limits
    app ← from_parsed (
        new_app go (record {
          id = p.app_id;
          tenant_id = p.tenant_id;
          hostnames = normalize_host go hostname ∷ [];
          origin_url = url;
          policy = record {
            mode = p.mode;
            default_action = "allow";
            ip_blocklist = [];
            ip_allowlist = [];
            ip_sets = ip_sets;
            custom_rules = custom_rules;
            rate_limits = rate_limits;
          };
        }))
    ok (record app { policy_id = p.policy_id; policy_version = p.policy_version_id })

  -- FetchPolicy, behind the exchange.
  unfoldable pub app_of_answer : String → Option (ℤ × Option GatewayPolicy) → Result FetchError App
  app_of_answer host none = err transport_failed
  app_of_answer host (some (status, body)) =
      if not (eqb_ℤ status (pos 200))
      then err (bad_status status)
      else elim body [ none ↦ err body_malformed | some p ↦ to_app p host ]

  unfoldable pub fetch_policy : {N : Type 0} → ControlApi N → N → String → Result FetchError App × N
  fetch_policy api n host =
      let (answer, n') = api.get_policy n (normalize_host go host) in
      (app_of_answer host answer, n')

-- A nil app is none.
pub record CacheEntry : Type 0 where
  pub app : Option App
  pub expires_at : ℕ

-- The cache, the counters of Metrics and the state of the control API.
pub record ProviderState (N : Type 0) : Type 0 where
  pub cache : GoMap CacheEntry
  pub hits : ℕ
  pub misses : ℕ
  pub fetch_errors : ℕ
  pub network : N

pub record Settings : Type 0 where
  pub ttl : ℕ
  pub fail_behavior : String

-- `time.Duration(cfg.CacheTTLSeconds) * time.Second`
abbrev pub seconds : ℤ → ℤ
seconds (pos n) = wrap_64 (pos (n * 1000000000))
seconds (negsuc n) = wrap_64 (negsuc (suc n * 1000000000 - 1))

-- The settings that NewProvider takes from the configuration.
unfoldable pub new_settings : ℤ → String → Settings
new_settings cache_ttl_seconds fail_behavior = record {
  ttl =
      if leb_ℤ (seconds cache_ttl_seconds) (pos 0)
      then 30000000000
      else pos_part (seconds cache_ttl_seconds);
  fail_behavior = if fail_behavior == "" then "use_stale_then_fail_open" else fail_behavior;
}

abbrev pub add_one : ℕ → ℕ
add_one n = (n + 1) % 2 ^ 64

-- The app of an entry that has not expired; the outer option says whether there is such an entry.
abbrev pub if_fresh : ℕ → Option CacheEntry → Option (Option App)
if_fresh now none = none
if_fresh now (some entry) = if ltb now entry.expires_at then some entry.app else none

unfoldable pub fresh : {N : Type 0} → ProviderState N → String → ℕ → Option (Option App)
fresh s host now = if_fresh now (lookup host s.cache)

abbrev pub failed_open : LookupResult
failed_open = record (not_found "policy_fetch_failed_fail_open") {
  fail_open = true;
  warning = "policy_fetch_failed_fail_open";
}

abbrev pub failed_closed : LookupResult
failed_closed = record (not_found "policy_fetch_failed") { status_code = pos 503 }

abbrev pub stale_app : App → LookupResult
stale_app app = record (found_app app) { stale = true; warning = "policy_fetch_failed_using_stale" }

-- `LookupResult{App: entry.app, Found: true}`
abbrev pub found_entry : Option App → LookupResult
found_entry app = record (not_found "") { app = app; found = true }

-- `ok && stale.app != nil`: the app that is cached, expired or not.
abbrev pub cached_app : Option CacheEntry → Option App
cached_app none = none
cached_app (some entry) = entry.app

-- The answer behind a failed fetch.
abbrev pub fallback : Settings → Option App → LookupResult
fallback settings (some app) = stale_app app
fallback settings none =
    if settings.fail_behavior == "fail_closed" then failed_closed else failed_open

module _ (go : Go) {N : Type 0} (api : ControlApi N) (settings : Settings) where
  -- The part behind the fetch.
  unfoldable pub after_fetch :
      ProviderState N → String → ℕ → Result FetchError App → LookupResult × ProviderState N
  after_fetch s host now (ok app) = (
    found_app app,
    record s {
      cache = insert host (record { app = some app; expires_at = now + settings.ttl }) s.cache;
    },
  )
  after_fetch s host now (err e) = (
    fallback settings (cached_app (lookup host s.cache)),
    record s { fetch_errors = add_one s.fetch_errors },
  )

  -- A fresh entry is the answer, and counts as a hit; behind none comes `next`.
  abbrev pub hit_or :
      ProviderState N
      → LookupResult × ProviderState N
      → Option (Option App)
      → LookupResult × ProviderState N
  hit_or s next (some app) = (found_entry app, record s { hits = add_one s.hits })
  hit_or s next none = next

  -- The part that holds the lock of the host, at the time `now`.
  unfoldable pub locked_lookup : ProviderState N → String → ℕ → LookupResult × ProviderState N
  locked_lookup s host now =
      let (fetched, n) = fetch_policy go api s.network host in
      hit_or s (after_fetch (record s { network = n }) host now fetched) (fresh s host now)

  -- Lookup, where no other call comes between its two readings of the clock.
  unfoldable pub lookup_at : ℕ → ℕ → ProviderState N → String → LookupResult × ProviderState N
  lookup_at now later s raw =
      let host = normalize_host go raw in
      if host == ""
      then (not_found "empty_host", s)
      else hit_or s (locked_lookup (record s { misses = add_one s.misses }) host later)
          (fresh s host now)

  -- The provider, between two readings of the clock.
  abbrev pub remote_provider : ℕ → ℕ → Provider (ProviderState N)
  remote_provider now later = record { lookup_host = lookup_at now later }
