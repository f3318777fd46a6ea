-- ===== src/Policy/Evaluation/Addresses.antt =====
-- The IP lists of an app.
use bedem_waf.Common.{
  ◌≡◌, ◌≢◌, inl, inr, Bool-cases, refl, ◌⊎◌, true, false, List, [], ◌∷◌, none, some,
}
use bedem_waf.Common.Int.{pos}
use bedem_waf.Go.{Go}
use bedem_waf.Go.Netip.{Addr, Prefix, prefix_contains}
use bedem_waf.Decision.{block, Decision, allow_decision}
use bedem_waf.Policy.{App}
use bedem_waf.Policy.Matching.{ip_in_set}
use bedem_waf.Policy.Evaluation.{first_blocked, evaluate_allowlist, evaluate_ip}

allowlist_cases :
    (ip : Addr) (l : List Prefix)
    → ((evaluate_allowlist ip l ≡ allow_decision) × ((l ≡ []) ⊎ (ip_in_set ip l ≡ true)))
      ⊎ (((evaluate_allowlist ip l).action ≡ block)
          × ((evaluate_allowlist ip l).status_code ≡ pos 403)
          × (l ≢ [])
          × (ip_in_set ip l ≡ false))
unfolding evaluate_allowlist
allowlist_cases ip [] = inl (refl, inl refl)
allowlist_cases ip (p ∷ ps) = elim (Bool-cases (ip_in_set ip (p ∷ ps))) [
  | inl found ↦ rw found (inl (refl, inr refl))
  | inr lost ↦ rw lost (inr (refl, refl, λ e. cc, refl))
]

module _ (go : Go) (ip : Addr) where
  -- The loop finds a decision exactly when some prefix has the address; it is a refusal.
  first_blocked_cases :
      (ps : List Prefix)
      → ((first_blocked go ip ps ≡ none) × (ip_in_set ip ps ≡ false))
        ⊎ ((d : Decision) × (first_blocked go ip ps ≡ some d)
            × (ip_in_set ip ps ≡ true)
            × (d.action ≡ block)
            × (d.status_code ≡ pos 403)
            × (d.reason ≡ "ip_blocklist"))
  unfolding first_blocked ip_in_set
  first_blocked_cases [] = inl (refl, refl)
  first_blocked_cases (p ∷ ps) = elim (Bool-cases (prefix_contains p ip)) [
    | inl hit ↦ rw hit (inr (_, refl, refl, refl, refl, refl))
    | inr miss ↦ rw miss (first_blocked_cases ps)
  ]

  -- An address is admitted when no prefix of the block list has it, and the allow list is empty or
  -- has it.
  abbrev pub IsAdmitted : App → Type 0
  IsAdmitted app =
      (ip_in_set ip app.ip_blocklist ≡ false)
      × ((app.ip_allowlist ≡ []) ⊎ (ip_in_set ip app.ip_allowlist ≡ true))

  -- An address is turned away when some prefix of the block list has it, or the allow list is there
  -- and does not have it.
  abbrev pub IsTurnedAway : App → Type 0
  IsTurnedAway app =
      (ip_in_set ip app.ip_blocklist ≡ true)
      ⊎ ((app.ip_allowlist ≢ []) × (ip_in_set ip app.ip_allowlist ≡ false))

  pub IsTurnedAway→not-IsAdmitted : (app : App) → IsTurnedAway app → ¬ IsAdmitted app
  IsTurnedAway→not-IsAdmitted app (inl hit) (miss, _) = cc
  IsTurnedAway→not-IsAdmitted app (inr (there, lost)) (_, inl empty) = there empty
  IsTurnedAway→not-IsAdmitted app (inr (there, lost)) (_, inr found) = cc

  -- EvaluateIP lets an admitted address pass with the plain allow decision, and refuses every other
  -- with a block of status 403.
  pub evaluate_ip_cases :
      (app : App)
      → ((evaluate_ip go app ip ≡ allow_decision) × IsAdmitted app)
        ⊎ (((evaluate_ip go app ip).action ≡ block)
            × ((evaluate_ip go app ip).status_code ≡ pos 403)
            × IsTurnedAway app)
  unfolding evaluate_ip
  evaluate_ip_cases app = elim (first_blocked_cases app.ip_blocklist) [
    | inl (e, miss) ↦ elim (allowlist_cases ip app.ip_allowlist) [
      | inl (passed, listed) ↦ rw (e, evaluate_ip) (inl (passed, (miss, listed)))
      | inr (act, status, there, lost) ↦ rw (e, evaluate_ip) (inr (act, status, inr (there, lost)))
    ]
    | inr (d, e, hit, act, status, reason) ↦ rw (e, evaluate_ip) (inr (act, status, inl hit))
  ]
