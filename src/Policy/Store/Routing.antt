-- ===== src/Policy/Store/Routing.antt =====
-- Where the static store routes a host.
use bedem_waf.Common.{
  Option, ◌≡◌, refl, sym, ap, ◌∙◌, ◌⊎◌, inl, inr, String, none, some, List, [], ◌∷◌, arith, eq_iff,
  ◌==◌, Member, Bool-cases,
}
use bedem_waf.Common.Result.{ok, err, >>=-eq-ok, map_err}
use bedem_waf.Go.{Go}
use bedem_waf.Go.Maps.{GoMap, lookup, insert, lookup-insert}
use bedem_waf.Config.{AppConfig}
use bedem_waf.Policy.{App}
use bedem_waf.Policy.Host.{normalize_host}
use bedem_waf.Policy.Rules.{
  new_app, parse_origin, parse_prefixes, parse_ip_sets, parse_custom_rules, parse_rate_limits,
}
use bedem_waf.Policy.Validation.{Parsed, within}
use bedem_waf.Policy.Store.{add_hosts, store_from, new_store, match_host}

abbrev app_or : App → Option App → App
app_or b (some a) = a
app_or b none = b

-- The hostnames of a parsed app.
abbrev or_none : List String → Parsed App → List String
or_none hs (ok app) = app.hostnames
or_none hs (err e) = hs

module _ (go : Go) where
  -- A successful round of the inner loop: the name was free.
  add_hosts_round :
      (app : App) (h : String) (hs : List String) (m m' : GoMap App)
      → add_hosts go app (h ∷ hs) m ≡ ok m'
      → (lookup (normalize_host go h) m ≡ none)
        × (add_hosts go app hs (insert (normalize_host go h) app m) ≡ ok m')
  unfolding add_hosts
  add_hosts_round app h hs m m' e = ground arith

  lookup-insert_self : (k : String) (a : App) (m : GoMap App) → lookup k (insert k a m) ≡ some a
  lookup-insert_self k a m = lookup-insert k k a m ∙ ground (arith, eq_iff k k)

  -- An entry is never overwritten.
  keeps_insert :
      (k h : String) (a b : App) (m : GoMap App)
      → lookup k m ≡ some a
      → lookup h m ≡ none
      → lookup k (insert h b m) ≡ some a
  keeps_insert k h a b m e free =
      lookup-insert h k b m ∙ ground (arith, eq_iff h k, ap (λ j. lookup j m))

  add_hosts_keeps :
      (app : App) (hs : List String) (m m' : GoMap App) (k : String) (a : App)
      → add_hosts go app hs m ≡ ok m'
      → lookup k m ≡ some a
      → lookup k m' ≡ some a
  unfolding add_hosts
  add_hosts_keeps app [] m m' k a e found = let same : m ≡ m' = cc in rw (← same) found
  add_hosts_keeps app (h ∷ hs) m m' k a e found =
      let (free, rest) = add_hosts_round app h hs m m' e in
      add_hosts_keeps app hs (insert (normalize_host go h) app m) m' k a rest
        (keeps_insert k (normalize_host go h) a app m found free)

  add_hosts_owns :
      (app : App) (hs : List String) (m m' : GoMap App) (h : String)
      → add_hosts go app hs m ≡ ok m'
      → Member h hs
      → lookup (normalize_host go h) m' ≡ some app
  add_hosts_owns app [] m m' h e mem = elim mem [ ]
  add_hosts_owns app (x ∷ hs) m m' h e (inl same) =
      let (free, rest) = add_hosts_round app x hs m m' e in
      rw same (
        add_hosts_keeps app hs (insert (normalize_host go x) app m) m' (normalize_host go x) app
          rest (lookup-insert_self (normalize_host go x) app m))
  add_hosts_owns app (x ∷ hs) m m' h e (inr mem) =
      let (free, rest) = add_hosts_round app x hs m m' e in
      add_hosts_owns app hs (insert (normalize_host go x) app m) m' h rest mem

  -- A name that is found was there before, or is one of the app's.
  add_hosts_source :
      (app : App) (hs : List String) (m m' : GoMap App) (k : String) (a : App)
      → add_hosts go app hs m ≡ ok m'
      → lookup k m' ≡ some a
      → (lookup k m ≡ some a)
        ⊎ ((a ≡ app) × ((h : String) × Member h hs × (normalize_host go h ≡ k)))
  unfolding add_hosts
  add_hosts_source app [] m m' k a e found = let same : m ≡ m' = cc in inl (rw same found)
  add_hosts_source app (x ∷ hs) m m' k a e found =
      let (free, rest) = add_hosts_round app x hs m m' e in
      elim (add_hosts_source app hs (insert (normalize_host go x) app m) m' k a rest found) [
        | inr (same, (h, mem, at)) ↦ inr (same, (h, inr mem, at))
        | inl before ↦ elim (Bool-cases (normalize_host go x == k)) [
          | inl hit ↦
              let at : lookup k (insert (normalize_host go x) app m) ≡ some app =
                lookup-insert (normalize_host go x) k app m ∙ rw hit refl in
              let same : some a ≡ some app = cc in
              inr (ap (app_or app) same, (x, inl refl, (eq_iff (normalize_host go x) k).0 hit))
          | inr miss ↦
              let at : lookup k (insert (normalize_host go x) app m) ≡ lookup k m =
                lookup-insert (normalize_host go x) k app m ∙ rw miss refl in
              inl cc
        ]
      ]

  store_from_keeps :
      (cfgs : List AppConfig) (m m' : GoMap App) (k : String) (a : App)
      → store_from go m cfgs ≡ ok m'
      → lookup k m ≡ some a
      → lookup k m' ≡ some a
  unfolding store_from
  store_from_keeps [] m m' k a e found = let same : m ≡ m' = cc in rw (← same) found
  store_from_keeps (cfg ∷ cfgs) m m' k a e found =
      let (app, made, e₁) = >>=-eq-ok (new_app go cfg) _ e in
      let (m₁, added, e₂) = >>=-eq-ok (add_hosts go app app.hostnames m) _ e₁ in
      store_from_keeps cfgs m₁ m' k a e₂ (add_hosts_keeps app app.hostnames m m₁ k a added found)

  new_app-hostnames :
      (cfg : AppConfig) (app : App) → new_app go cfg ≡ ok app → app.hostnames ≡ cfg.hostnames
  unfolding new_app
  new_app-hostnames cfg app e =
      let (origin, _, e₁) = >>=-eq-ok (parse_origin go cfg) _ e in
      let (bs, _, e₂) =
        >>=-eq-ok (map_err (within cfg.id) (parse_prefixes go cfg.policy.ip_blocklist)) _ e₁ in
      let (al, _, e₃) =
        >>=-eq-ok (map_err (within cfg.id) (parse_prefixes go cfg.policy.ip_allowlist)) _ e₂ in
      let (sets, _, e₄) =
        >>=-eq-ok (map_err (within cfg.id) (parse_ip_sets go cfg.policy.ip_sets)) _ e₃ in
      let (rules, _, e₅) =
        >>=-eq-ok (map_err (within cfg.id) (parse_custom_rules go sets cfg.policy.custom_rules)) _
          e₄ in
      let (limits, _, e₆) =
        >>=-eq-ok (map_err (within cfg.id) (parse_rate_limits go sets cfg.policy.rate_limits)) _
          e₅ in
      sym (ap (or_none cfg.hostnames) e₆)

  store_from_routes :
      (cfgs : List AppConfig) (m m' : GoMap App)
      → store_from go m cfgs ≡ ok m'
      → (cfg : AppConfig) (h : String) → Member cfg cfgs
      → Member h cfg.hostnames
      → (app : App) × (new_app go cfg ≡ ok app) × (lookup (normalize_host go h) m' ≡ some app)
  unfolding store_from
  store_from_routes [] m m' e cfg h c mem = elim c [ ]
  store_from_routes (x ∷ cfgs) m m' e cfg h (inr c) mem =
      let (app, made, e₁) = >>=-eq-ok (new_app go x) _ e in
      let (m₁, added, e₂) = >>=-eq-ok (add_hosts go app app.hostnames m) _ e₁ in
      store_from_routes cfgs m₁ m' e₂ cfg h c mem
  store_from_routes (x ∷ cfgs) m m' e cfg h (inl same) mem =
      let (app, made, e₁) = >>=-eq-ok (new_app go x) _ e in
      let (m₁, added, e₂) = >>=-eq-ok (add_hosts go app app.hostnames m) _ e₁ in
      let here : Member h app.hostnames = rw (new_app-hostnames x app made, ← same) mem in
      (
        app,
        rw same made,
        store_from_keeps cfgs m₁ m' (normalize_host go h) app e₂
            (add_hosts_owns app app.hostnames m m₁ h added here),
      )

  owned :
      (cfg : AppConfig) (app : App) (k : String)
      → new_app go cfg ≡ ok app
      → ((h : String) × Member h app.hostnames × (normalize_host go h ≡ k))
      → (h : String) × Member h cfg.hostnames × (normalize_host go h ≡ k)
  owned cfg app k made (h, mem, at) = (h, rw (← new_app-hostnames cfg app made) mem, at)

  -- An entry of the map comes from the map before or from an app that owns the name.
  store_from_source :
      (cfgs : List AppConfig) (m m' : GoMap App) (k : String) (a : App)
      → store_from go m cfgs ≡ ok m'
      → lookup k m' ≡ some a
      → (lookup k m ≡ some a)
        ⊎ ((cfg : AppConfig) × Member cfg cfgs
            × (new_app go cfg ≡ ok a)
            × ((h : String) × Member h cfg.hostnames × (normalize_host go h ≡ k)))
  unfolding store_from
  store_from_source [] m m' k a e found = let same : m ≡ m' = cc in inl (rw same found)
  store_from_source (x ∷ cfgs) m m' k a e found =
      let (app, made, e₁) = >>=-eq-ok (new_app go x) _ e in
      let (m₁, added, e₂) = >>=-eq-ok (add_hosts go app app.hostnames m) _ e₁ in
      elim (store_from_source cfgs m₁ m' k a e₂ found) [
        | inr (cfg, c, makes, owns) ↦ inr (cfg, inr c, makes, owns)
        | inl before ↦ elim (add_hosts_source app app.hostnames m m₁ k a added before) [
          | inl first ↦ inl first
          | inr (same, owns) ↦ inr (x, inl refl, made ∙ ap ok (sym same), owned x app k made owns)
        ]
      ]

  -- In a store that NewStore returns, every configured hostname of every configured app finds the
  -- app that newApp makes of its configuration, in whatever way the host of a request spells it: two
  -- texts with one normal form find the same app.
  pub new_store_routes :
      (cfgs : List AppConfig) (m : GoMap App)
      → new_store go cfgs ≡ ok m
      → (cfg : AppConfig) (h host : String) → Member cfg cfgs
      → Member h cfg.hostnames
      → normalize_host go host ≡ normalize_host go h
      → (app : App) × (new_app go cfg ≡ ok app) × (match_host go m host ≡ some app)
  unfolding new_store match_host
  new_store_routes cfgs m e cfg h host c mem same =
      let (app, made, found) = store_from_routes cfgs [] m e cfg h c mem in
      (app, made, rw same found)

  -- A store that NewStore returns finds an app only for a host whose normal form is that of a
  -- hostname of a configured app, and finds the app that newApp makes of that configuration.
  pub new_store_source :
      (cfgs : List AppConfig) (m : GoMap App)
      → new_store go cfgs ≡ ok m
      → (host : String) (a : App) → match_host go m host ≡ some a
      → (cfg : AppConfig) × Member cfg cfgs
        × (new_app go cfg ≡ ok a)
        × ((h : String) × Member h cfg.hostnames × (normalize_host go h ≡ normalize_host go host))
  unfolding new_store match_host lookup
  new_store_source cfgs m e host a found =
      elim (store_from_source cfgs [] m (normalize_host go host) a e found) [
        | inl first ↦ cc
        | inr from ↦ from
      ]
