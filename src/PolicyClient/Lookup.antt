-- ===== src/PolicyClient/Lookup.antt =====
-- What the caching provider answers, and what it keeps.
use bedem_waf.Common.{
  ℕ, ◌+◌, ◌<◌, ◌≡◌, ◌≢◌, refl, ◌∙◌, String, true, false, Option, none, some, ◌==◌, ltb, ◌⊎◌, inl,
  inr, Bool-cases, arith, eq_iff, eq_refl,
}
use bedem_waf.Common.Result.{Result, ok, err}
use bedem_waf.Go.{Go}
use bedem_waf.Go.Maps.{GoMap, lookup, insert, lookup-insert}
use bedem_waf.Policy.{App}
use bedem_waf.Policy.Host.{normalize_host}
use bedem_waf.Policy.Store.{LookupResult, found_app}
use bedem_waf.PolicyClient.{
  FetchError, ControlApi, CacheEntry, ProviderState, Settings, add_one, fresh, failed_open,
  failed_closed, stale_app, cached_app, if_fresh, fallback, fetch_policy, after_fetch, hit_or,
  locked_lookup, lookup_at,
}

-- An entry that is there has an app.
abbrev pub HasApp : Option CacheEntry → Type 0
HasApp none = Unit
HasApp (some entry) = entry.app ≢ none

-- No entry of the cache has a nil app.
abbrev pub IsFilled : GoMap CacheEntry → Type 0
IsFilled cache = (host : String) → HasApp (lookup host cache)

some_injective : {A : Type 0} {a b : A} → some a ≡ some b → a ≡ b
some_injective e = cc

module _ (go : Go) {N : Type 0} (api : ControlApi N) (settings : Settings) where
  -- An answer that claims an app has it.
  abbrev IsSoundAnswer : LookupResult → Type 0
  IsSoundAnswer answer = answer.found ≡ true → answer.app ≢ none

  -- A sound answer, with a cache that keeps no nil app.
  abbrev IsSoundStep : LookupResult × ProviderState N → Type 0
  IsSoundStep (answer, s) = IsSoundAnswer answer × IsFilled s.cache

  fallback_sound : (app : Option App) → IsSoundAnswer (fallback settings app)
  fallback_sound (some app) = λ _ e. cc
  fallback_sound none = elim (Bool-cases (settings.fail_behavior == "fail_closed")) [
    | inl e ↦ rw e (λ h. cc)
    | inr e ↦ rw e (λ h. cc)
  ]

  insert-IsFilled :
      (cache : GoMap CacheEntry) (host : String) (app : App) (expires_at : ℕ)
      → IsFilled cache
      → IsFilled (insert host (record { app = some app; expires_at = expires_at }) cache)
  insert-IsFilled cache host app expires_at filled k =
      rw lookup-insert
        (elim (Bool-cases (host == k)) [ inl e ↦ rw e (λ h. cc) | inr e ↦ rw e (filled k) ])

  after_fetch_sound :
      (s : ProviderState N) (host : String) (now : ℕ) (fetched : Result FetchError App)
      → IsFilled s.cache
      → IsSoundStep (after_fetch go api settings s host now fetched)
  unfolding after_fetch
  after_fetch_sound s host now (ok app) filled =
      (λ _ e. cc, insert-IsFilled s.cache host app (now + settings.ttl) filled)
  after_fetch_sound s host now (err e) filled =
      (fallback_sound (cached_app (lookup host s.cache)), filled)

  if_fresh_sound :
      (now : ℕ) (found : Option CacheEntry) → HasApp found → if_fresh now found ≢ some none
  if_fresh_sound now none h = λ e. cc
  if_fresh_sound now (some entry) h = elim (Bool-cases (ltb now entry.expires_at)) [
    | inl young ↦ rw young (λ e. h (some_injective e))
    | inr old ↦ rw old (λ e. cc)
  ]

  hit_or_sound :
      (s : ProviderState N) (next : LookupResult × ProviderState N) (found : Option (Option App))
      → found ≢ some none
      → IsFilled s.cache
      → IsSoundStep next
      → IsSoundStep (hit_or go api settings s next found)
  hit_or_sound s next (some (some app)) there filled h = (λ _ e. cc, filled)
  hit_or_sound s next (some none) there filled h = elim (there refl) [ ]
  hit_or_sound s next none there filled h = h

  fresh_sound :
      (s : ProviderState N) (host : String) (now : ℕ)
      → IsFilled s.cache
      → fresh s host now ≢ some none
  unfolding fresh
  fresh_sound s host now filled = if_fresh_sound now (lookup host s.cache) (filled host)

  -- Lookup keeps the cache free of nil apps and, on such a cache, never says that it found an app
  -- without giving one: neither for a fresh entry, nor behind a fetch, nor with an expired entry
  -- behind a fetch that failed.
  pub lookup_at_sound :
      (now later : ℕ) (s : ProviderState N) (raw : String)
      → IsFilled s.cache
      → ((lookup_at go api settings now later s raw).0.found ≡ true
          → (lookup_at go api settings now later s raw).0.app ≢ none)
        × IsFilled (lookup_at go api settings now later s raw).1.cache
  unfolding lookup_at locked_lookup
  lookup_at_sound now later s raw filled = elim (Bool-cases (normalize_host go raw == "")) [
    | inl e ↦ rw e (λ h. cc, filled)
    | inr e ↦ rw e (
        hit_or_sound s _ (fresh s (normalize_host go raw) now)
          (fresh_sound s (normalize_host go raw) now filled) filled
          (hit_or_sound _ _
            (fresh (record s { misses = add_one s.misses }) (normalize_host go raw) later)
            (fresh_sound (record s { misses = add_one s.misses }) (normalize_host go raw) later
              filled)
            filled (after_fetch_sound _ (normalize_host go raw) later _ filled)))
  ]

  lookup_at_hit :
      (s : ProviderState N) (raw : String) (now later : ℕ) (app : App)
      → (normalize_host go raw == "") ≡ false
      → fresh s (normalize_host go raw) now ≡ some (some app)
      → lookup_at go api settings now later s raw
        ≡ (found_app app, record s { hits = add_one s.hits })
  unfolding lookup_at
  lookup_at_hit s raw now later app named found = rw (named, found) refl

  fresh-misses :
      (s : ProviderState N) (m : ℕ) (host : String) (now : ℕ)
      → fresh (record s { misses = m }) host now ≡ fresh s host now
  unfolding fresh
  fresh-misses s m host now = refl

  -- The state behind a fetch that succeeded.
  abbrev pub stored : ProviderState N → String → ℕ → App → ProviderState N
  stored s host later app = record s {
    misses = add_one s.misses;
    network = (fetch_policy go api s.network host).1;
    cache = insert host (record { app = some app; expires_at = later + settings.ttl }) s.cache;
  }

  after_fetch-ok :
      (s : ProviderState N) (host : String) (now : ℕ) (app : App)
      → after_fetch go api settings s host now (ok app) ≡ (
        found_app app,
        record s {
          cache = insert host (record { app = some app; expires_at = now + settings.ttl }) s.cache;
        },
      )
  unfolding after_fetch
  after_fetch-ok s host now app = refl

  pub lookup_at_fetched :
      (s : ProviderState N) (raw : String) (app : App) (now later : ℕ)
      → (normalize_host go raw == "") ≡ false
      → fresh s (normalize_host go raw) now ≡ none
      → fresh s (normalize_host go raw) later ≡ none
      → (fetch_policy go api s.network (normalize_host go raw)).0 ≡ ok app
      → lookup_at go api settings now later s raw
        ≡ (found_app app, stored s (normalize_host go raw) later app)
  unfolding lookup_at locked_lookup
  lookup_at_fetched s raw app now later named old older got =
      let still = fresh-misses s (add_one s.misses) (normalize_host go raw) later ∙ older in
      rw (named, old, still, got) (after_fetch-ok _ (normalize_host go raw) later app)

  fresh-stored :
      (s : ProviderState N) (host : String) (later again : ℕ) (app : App)
      → again < later + settings.ttl
      → fresh (stored s host later app) host again ≡ some (some app)
  unfolding fresh
  fresh-stored s host later again app young =
      let at =
        lookup-insert host host (record { app = some app; expires_at = later + settings.ttl })
          s.cache in
      let self : host == host ≡ true = eq_refl host in
      let before : ltb again (later + settings.ttl) ≡ true = ground arith in
      rw (at, self, before) refl

  -- Within the life of an entry no second fetch is made: behind a lookup that fetched an app, a lookup
  -- of the same host at any time before the entry expires answers with that app, and leaves the
  -- cache and the control API alone.
  pub lookup_at_cached :
      (s : ProviderState N) (raw : String) (app : App) (now later again after : ℕ)
      → (normalize_host go raw == "") ≡ false
      → fresh s (normalize_host go raw) now ≡ none
      → fresh s (normalize_host go raw) later ≡ none
      → (fetch_policy go api s.network (normalize_host go raw)).0 ≡ ok app
      → again < later + settings.ttl
      → ((lookup_at go api settings again after (lookup_at go api settings now later s raw).1 raw).0
          ≡ found_app app)
        × ((lookup_at go api settings again after
              (lookup_at go api settings now later s raw).1
              raw).1
            ≡ record (lookup_at go api settings now later s raw).1 { hits = add_one s.hits })
  lookup_at_cached s raw app now later again after named old older got young =
      let first = lookup_at_fetched s raw app now later named old older got in
      let there = fresh-stored s (normalize_host go raw) later again app young in
      let second =
        lookup_at_hit (stored s (normalize_host go raw) later app) raw again after app named
          there in
      rw (first, second) (refl, refl)

  after_fetch-err :
      (s : ProviderState N) (host : String) (now : ℕ) (e : FetchError)
      → after_fetch go api settings s host now (err e) ≡ (
        fallback settings (cached_app (lookup host s.cache)),
        record s { fetch_errors = add_one s.fetch_errors },
      )
  unfolding after_fetch
  after_fetch-err s host now e = refl

  abbrev pub behind_failure : ProviderState N → String → ProviderState N
  behind_failure s host = record s {
    misses = add_one s.misses;
    network = (fetch_policy go api s.network host).1;
    fetch_errors = add_one s.fetch_errors;
  }

  lookup_at_refused :
      (s : ProviderState N) (raw : String) (e : FetchError) (now later : ℕ)
      → (normalize_host go raw == "") ≡ false
      → fresh s (normalize_host go raw) now ≡ none
      → fresh s (normalize_host go raw) later ≡ none
      → (fetch_policy go api s.network (normalize_host go raw)).0 ≡ err e
      → lookup_at go api settings now later s raw ≡ (
        fallback settings (cached_app (lookup (normalize_host go raw) s.cache)),
        behind_failure s (normalize_host go raw),
      )
  unfolding lookup_at locked_lookup
  lookup_at_refused s raw e now later named old older got =
      let still = fresh-misses s (add_one s.misses) (normalize_host go raw) later ∙ older in
      rw (named, old, still, got) (after_fetch-err _ (normalize_host go raw) later e)

  fallback_cases :
      (found : Option App)
      → ((app : App) × (found ≡ some app) × (fallback settings found ≡ stale_app app))
        ⊎ ((found ≡ none)
            × (settings.fail_behavior ≡ "fail_closed")
            × (fallback settings found ≡ failed_closed))
        ⊎ ((found ≡ none)
            × (settings.fail_behavior ≢ "fail_closed")
            × (fallback settings found ≡ failed_open))
  fallback_cases (some app) = inl (app, refl, refl)
  fallback_cases none = elim (Bool-cases (settings.fail_behavior == "fail_closed")) [
    | inl closed ↦
        rw closed (inr (inl (refl, (eq_iff settings.fail_behavior "fail_closed").0 closed, refl)))
    | inr opens ↦
        rw opens (
          inr
            (inr (refl, (λ e. ground (arith, eq_iff settings.fail_behavior "fail_closed")), refl)))
  ]

  -- A failed fetch behind no fresh entry: an entry that expired is used, with a warning, whatever the
  -- setting says, if its app is not nil; without one the setting fail_closed makes a lookup that found nothing, with status
  -- 503, and every other setting one that lets the request fail open. The cache stays as it is.
  pub lookup_at_failed :
      (s : ProviderState N) (raw : String) (e : FetchError) (now later : ℕ)
      → (normalize_host go raw == "") ≡ false
      → fresh s (normalize_host go raw) now ≡ none
      → fresh s (normalize_host go raw) later ≡ none
      → (fetch_policy go api s.network (normalize_host go raw)).0 ≡ err e
      → ((lookup_at go api settings now later s raw).1.cache ≡ s.cache)
        × (((app : App) × (cached_app (lookup (normalize_host go raw) s.cache) ≡ some app)
              × ((lookup_at go api settings now later s raw).0 ≡ stale_app app))
            ⊎ ((cached_app (lookup (normalize_host go raw) s.cache) ≡ none)
                × (settings.fail_behavior ≡ "fail_closed")
                × ((lookup_at go api settings now later s raw).0 ≡ failed_closed))
            ⊎ ((cached_app (lookup (normalize_host go raw) s.cache) ≡ none)
                × (settings.fail_behavior ≢ "fail_closed")
                × ((lookup_at go api settings now later s raw).0 ≡ failed_open)))
  lookup_at_failed s raw e now later named old older got =
      let same = lookup_at_refused s raw e now later named old older got in
      rw same (refl, fallback_cases (cached_app (lookup (normalize_host go raw) s.cache)))
