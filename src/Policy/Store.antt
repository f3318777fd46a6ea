-- ===== src/Policy/Store.antt =====
-- NewStore, MatchHost and Lookup of store.go, and the interface Provider. An app that Go shares by
-- pointer is never changed behind NewStore, and is a value here.
pub mod Routing
use bedem_waf.Common.{String, Bool, true, false, Option, none, some, List, [], ◌∷◌}
use bedem_waf.Common.Int.{ℤ, pos}
use bedem_waf.Common.Result.{ok, err, ◌>>=◌}
use bedem_waf.Go.{Go}
use bedem_waf.Go.Maps.{GoMap, lookup, insert}
use bedem_waf.Config.{AppConfig}
use bedem_waf.Policy.{App}
use bedem_waf.Policy.Host.{normalize_host}
use bedem_waf.Policy.Validation.{Parsed, hostname_taken}
use bedem_waf.Policy.Rules.{new_app}

pub record LookupResult : Type 0 where
  pub app : Option App
  pub found : Bool
  pub fail_open : Bool
  pub status_code : ℤ
  pub reason : String
  pub warning : String
  pub stale : Bool

-- `LookupResult{Found: false, Reason: r}`: all other fields are zero.
abbrev pub not_found : String → LookupResult
not_found r = record {
  app = none;
  found = false;
  fail_open = false;
  status_code = pos 0;
  reason = r;
  warning = "";
  stale = false;
}

-- `LookupResult{App: app, Found: true}`
abbrev pub found_app : App → LookupResult
found_app a = record (not_found "") { app = some a; found = true }

-- The interface Provider: Lookup, on a state of the provider's own.
pub record Provider (S : Type 0) : Type 0 where
  pub lookup_host : S → String → LookupResult × S

module _ (go : Go) where
  -- The inner loop of NewStore.
  pub add_hosts : App → List String → GoMap App → Parsed (GoMap App)
  add_hosts app [] by_host = ok by_host
  add_hosts app (h ∷ hs) by_host = elim (lookup (normalize_host go h) by_host) [
    | some existing ↦ err (hostname_taken (normalize_host go h) existing.id app.id)
    | none ↦ add_hosts app hs (insert (normalize_host go h) app by_host)
  ]

  pub store_from : GoMap App → List AppConfig → Parsed (GoMap App)
  store_from by_host [] = ok by_host
  store_from by_host (cfg ∷ cfgs) = new_app go cfg >>= λ app.
      add_hosts app app.hostnames by_host >>= λ by_host'. store_from by_host' cfgs

  -- NewStore; a store is its field byHost
  unfoldable pub new_store : List AppConfig → Parsed (GoMap App)
  unfolding store_from add_hosts
  new_store apps = store_from [] apps

  unfoldable pub match_host : GoMap App → String → Option App
  match_host by_host host = lookup (normalize_host go host) by_host

  abbrev pub lookup_result : Option App → LookupResult
  lookup_result none = not_found "no_matching_app"
  lookup_result (some a) = found_app a

  -- Store.Lookup
  abbrev pub static_provider : Provider (GoMap App)
  static_provider = record {
    lookup_host = λ by_host host. (lookup_result (match_host by_host host), by_host);
  }
