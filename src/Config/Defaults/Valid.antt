-- ===== src/Config/Defaults/Valid.antt =====
-- What a validated configuration gives the policy store, and that the defaults are filled in once.
use bedem_waf.Common.{
  ◌≡◌, ◌≢◌, ◌⊎◌, refl, ap, ◌∙◌, String, true, false, not, ◌&&◌, Option, none, some, List, [], ◌∷◌,
  ◌==◌, is_nonempty, All, Bool-cases, inl, inr, arith, eq_iff,
}
use bedem_waf.Common.Int.{ℤ, pos, eqb_ℤ}
use bedem_waf.Common.Result.{ok, >>-eq-ok, refuse->>-eq-ok, refuse-eq-ok}
use bedem_waf.Go.{Go, Url}
use bedem_waf.Config.{RateLimitConfig, AppConfig}
use bedem_waf.Decision.{mode_of, count_mode, block_mode}
use bedem_waf.Decision.Enforcement.{mode_of_constant}
use bedem_waf.Policy.Rules.{parse_origin, origin_of}
use bedem_waf.Config.Defaults.{
  or_text, or_number, default_rate_limit, lacks_part, validate_app, validate_apps, app_id_required,
  hostname_required, origin_required, invalid_mode,
}

or_text_twice : (fallback s : String) → or_text fallback (or_text fallback s) ≡ or_text fallback s
or_text_twice fallback s = elim (Bool-cases (s == "")) [
  | inl e ↦ rw e (elim (Bool-cases (fallback == "")) [ inl f ↦ rw f refl | inr f ↦ rw f refl ])
  | inr e ↦ rw (e, e) refl
]

origin_whole :
    (id : String) (parsed : Option Url)
    → lacks_part parsed ≡ false
    → (u : Url) × (origin_of id parsed ≡ ok u)
origin_whole id none whole = cc
origin_whole id (some u) whole = (u, rw whole refl)

or_number_twice :
    (fallback n : ℤ) → or_number fallback (or_number fallback n) ≡ or_number fallback n
or_number_twice fallback n = elim (Bool-cases (eqb_ℤ n (pos 0))) [
  | inl e ↦
      rw e (elim (Bool-cases (eqb_ℤ fallback (pos 0))) [ inl f ↦ rw f refl | inr f ↦ rw f refl ])
  | inr e ↦ rw (e, e) refl
]

-- A text that is not empty is kept by any fallback.
or_text_kept : (fallback s : String) → (s == "") ≡ false → or_text fallback s ≡ s
or_text_kept fallback s e = rw e refl

or_ip-given : (s : String) → (or_text "ip" s == "") ≡ false
or_ip-given s = elim (Bool-cases (s == "")) [ inl e ↦ rw e refl | inr e ↦ rw (e, e) refl ]

key_twice : (k s : String) → or_text "ip" (or_text k (or_text "ip" s)) ≡ or_text "ip" s
key_twice k s =
    ap (or_text "ip") (or_text_kept k (or_text "ip" s) (or_ip-given s)) ∙ or_text_twice "ip" s

abbrev with_defaults : RateLimitConfig → String → String → String → ℤ → RateLimitConfig
with_defaults r i k a s = record r { id = i; key_type = k; action = a; status_code = s }

with_defaults-eq :
    (r : RateLimitConfig) {i i' k k' a a' : String} {s s' : ℤ}
    → i ≡ i'
    → k ≡ k'
    → a ≡ a'
    → s ≡ s'
    → with_defaults r i k a s ≡ with_defaults r i' k' a' s'
with_defaults-eq r ei ek ea es = rw (ei, ek, ea, es) refl

-- The defaults of a rate limit are filled in once: to fill them in again changes nothing.
default_rate_limit_twice :
    (r : RateLimitConfig) → default_rate_limit (default_rate_limit r) ≡ default_rate_limit r
unfolding default_rate_limit
default_rate_limit_twice r =
    with_defaults-eq r (or_text_twice r.name r.id) (key_twice r.key (or_text r.key r.key_type))
      (or_text_twice "count" r.action) (or_number_twice (pos 429) r.status_code)

module _ (go : Go) where
  -- An app that the store can build: its origin parses, and its mode is one of the two.
  abbrev pub IsBuildable : AppConfig → Type 0
  IsBuildable a =
      (a.id ≢ "")
      × (a.hostnames ≢ [])
      × ((u : Url) × (parse_origin go a ≡ ok u))
      × ((mode_of a.policy.mode ≡ count_mode) ⊎ (mode_of a.policy.mode ≡ block_mode))

  origin_of_parts :
      (a : AppConfig)
      → lacks_part (go.parse_url a.origin_url) ≡ false
      → (u : Url) × (parse_origin go a ≡ ok u)
  unfolding parse_origin
  origin_of_parts a whole = origin_whole a.id (go.parse_url a.origin_url) whole

  known_mode :
      (m : String)
      → not (m == "count") && not (m == "block") ≡ false
      → (mode_of m ≡ count_mode) ⊎ (mode_of m ≡ block_mode)
  known_mode m h =
      rw (mode_of_constant m (ground (arith, h)))
        (elim (Bool-cases (m == "count")) [ inl e ↦ inl (rw e refl) | inr e ↦ inr (rw e refl) ])

  validate_app-IsBuildable : (a : AppConfig) → validate_app go a ≡ ok tt → IsBuildable a
  unfolding validate_app
  validate_app-IsBuildable a h =
      let (named, h₁) = refuse->>-eq-ok (a.id == "") app_id_required _ h in
      let (hosted, h₂) =
        refuse->>-eq-ok (not (is_nonempty a.hostnames)) (hostname_required a.id) _ h₁ in
      let (given, h₃) = refuse->>-eq-ok (a.origin_url == "") (origin_required a.id) _ h₂ in
      let (whole, h₄) = refuse->>-eq-ok (lacks_part (go.parse_url a.origin_url)) _ _ h₃ in
      let known = refuse-eq-ok _ (invalid_mode a.id a.policy.mode) h₄ in
      (
        ground (arith, eq_iff a.id "", named),
        λ e. let t : not (is_nonempty a.hostnames) ≡ true = ap (λ hs. not (is_nonempty hs)) e in cc,
        origin_of_parts a whole,
        known_mode a.policy.mode known,
      )

  -- Every app of a validated configuration has an id and a hostname, an origin that the policy store's
  -- parser accepts, and a mode that the gateway knows.
  pub validate_apps-IsBuildable :
      (apps : List AppConfig) → validate_apps go apps ≡ ok tt → All IsBuildable apps
  unfolding validate_apps
  validate_apps-IsBuildable [] h = tt
  validate_apps-IsBuildable (a ∷ apps) h =
      let (first, rest) = >>-eq-ok (validate_app go a) _ h in
      (validate_app-IsBuildable a first, validate_apps-IsBuildable apps rest)
