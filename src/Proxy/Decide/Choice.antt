-- ===== src/Proxy/Decide/Choice.antt =====
-- The decision as one choice among the answers of all stages, and what the stages in front of the
-- inspection leave of it.
use bedem_waf.Common.{
  ◌≡◌, refl, sym, String, Bool, true, false, not, ◌&&◌, ◌||◌, Option, none, some, List, [], ◌∷◌,
  ◌==◌, if◌then◌else◌, ◌⊎◌, Bool-cases, inl, inr,
}
use bedem_waf.Common.Result.{Result, ok, err}
use bedem_waf.Decision.{
  Action, allow, count, block, challenge, rate_limit, other, is_allow, is_count, is_block,
  is_challenge, is_rate_limit, Decision, block_decision,
}
use bedem_waf.Policy.{App}
use bedem_waf.Proxy.Decide.{
  Progress, progress, remember, stops, is_allowed, after_limits, after_body, after_custom,
  is_terminal_allow,
}

abbrev pub first_some : List (Option Decision) → Option Decision
first_some [] = none
first_some (none ∷ ds) = first_some ds
first_some (some d ∷ ds) = some d

-- A decision that counts only where a test holds.
abbrev pub given : Bool → Decision → Option Decision
given b d = if b then some d else none

abbrev pub or_decision : Option Decision → Decision → Decision
or_decision none d = d
or_decision (some c) d = c

abbrev or_ok : Option Decision → Result String Decision → Result String Decision
or_ok none r = r
or_ok (some d) r = ok d

abbrev pub given_some : (Decision → Bool) → Option Decision → Option Decision
given_some p none = none
given_some p (some d) = given (p d) d

abbrev pub is_custom_allow : Decision → Bool
is_custom_allow d = d.reason == "custom_rule_allow"

module _ (app : App) (ip limits custom : Decision) (exceeded : Bool) where
  -- The refusals that come before the inspection, in order.
  abbrev early_refusal : Option Decision
  early_refusal = first_some (
      given (not (is_allow ip.action)) ip
      ∷ given (stops limits) limits
      ∷ given exceeded (block_decision "request_body_limit_exceeded" "waf:request_body_limit")
      ∷ given (is_block custom.action) custom
      ∷ [])

  abbrev pub late_refusal : Option Decision → Option Decision
  late_refusal found = first_some (
      given_some stops found
      ∷ given (is_block app.default_action && not (is_custom_allow custom))
          (block_decision "default_action" "default_action")
      ∷ [])

  abbrev pub counted : Option Decision → Option Decision
  counted found = first_some (
      given (is_count limits.action) limits
      ∷ given (is_count custom.action) custom
      ∷ given_some (λ d. is_count d.action) found
      ∷ [])

  -- Behind an inspection: the first refusal; else the first decision that counts; else the
  -- terminal allow of a custom rule; else the allow of the address.
  abbrev pub later : Result String (Option Decision) → Result String Decision
  later (err e) = err e
  later (ok found) = ok (
      or_decision (late_refusal found)
        (or_decision (counted found) (if is_custom_allow custom then custom else ip)))

  abbrev pub ruling : Result String (Option Decision) → Result String Decision
  ruling answer = or_ok early_refusal (later answer)

  -- The stages in front of the inspection, over the answers.
  unfoldable pub front : Progress
  front =
      let start = progress ip none in
      let p = if is_allowed start then after_limits start limits else start in
      after_custom custom (after_body exceeded p)

  -- What the stages in front of the inspection leave.
  abbrev Front : Type 0
  Front =
      ((d : Decision) × (early_refusal ≡ some d) × (front.final ≡ d) × (is_allow d.action ≡ false))
      ⊎ ((early_refusal ≡ none)
          × (is_allowed front ≡ true)
          × (front.observed
              ≡ first_some (
                  given (is_count limits.action) limits
                  ∷ given (is_count custom.action) custom
                  ∷ []))
          × (front.final ≡ (if is_custom_allow custom then custom else ip))
          × (is_terminal_allow front ≡ is_custom_allow custom))

-- The predicates on actions exclude each other.
abbrev is_stop : Action → Bool
is_stop a = is_rate_limit a || is_block a || is_challenge a

pub stop-not-allow : (a : Action) → is_stop a ≡ true → is_allow a ≡ false
stop-not-allow allow h = sym h
stop-not-allow count h = refl
stop-not-allow block h = refl
stop-not-allow challenge h = refl
stop-not-allow rate_limit h = refl
stop-not-allow (other s e) h = refl

block-not-allow : (a : Action) → is_block a ≡ true → is_allow a ≡ false
block-not-allow allow h = sym h
block-not-allow count h = refl
block-not-allow block h = refl
block-not-allow challenge h = refl
block-not-allow rate_limit h = refl
block-not-allow (other s e) h = refl

allow-not-count : (a : Action) → is_allow a ≡ true → is_count a ≡ false
allow-not-count allow h = refl
allow-not-count count h = sym h
allow-not-count block h = refl
allow-not-count challenge h = refl
allow-not-count rate_limit h = refl
allow-not-count (other s e) h = refl

-- What is remembered is the first that counts.
pub only_first : (b : Bool) (d : Decision) → given b d ≡ first_some (given b d ∷ none ∷ [])
only_first true d = refl
only_first false d = refl

pub only_first_alone : (b : Bool) (d : Decision) → given b d ≡ first_some (none ∷ given b d ∷ [])
only_first_alone true d = refl
only_first_alone false d = refl

remember_next :
    (b : Bool) (c d : Decision)
    → is_count d.action ≡ true
    → remember (given b c) d ≡ first_some (given b c ∷ some d ∷ [])
remember_next true c d e = refl
remember_next false c d e = rw e refl

module _ (app : App) (ip limits custom : Decision) where
  pub front_cases :
      (exceeded : Bool)
      → (is_allow ip.action ≡ true → is_custom_allow ip ≡ false)
      → (is_custom_allow custom ≡ true → is_allow custom.action ≡ true)
      → Front app ip limits custom exceeded
  unfolding front after_limits after_body after_custom
  front_cases exceeded plain faithful = elim (Bool-cases (is_allow ip.action)) [
    | inr off ↦ simp off (inl (ip, refl, refl, off))
    | inl on ↦ elim (Bool-cases (stops limits)) [
      | inl stop ↦
          simp (on, stop, stop-not-allow limits.action stop)
            (inl (limits, refl, refl, stop-not-allow limits.action stop))
      | inr pass ↦ elim (Bool-cases exceeded) [
        | inl long ↦ simp (on, pass, long) (inl (_, refl, refl, refl))
        | inr short ↦ elim (Bool-cases (is_block custom.action)) [
          | inl refused ↦
              simp (on, pass, short, refused, block-not-allow custom.action refused)
                (inl (custom, refl, refl, block-not-allow custom.action refused))
          | inr fine ↦ elim (Bool-cases (is_custom_allow custom)) [
            | inl allowed ↦
                let lets = faithful allowed in
                simp (on, pass, short, fine, allowed, lets, allow-not-count custom.action lets)
                  (inr (refl, refl, only_first (is_count limits.action) limits, refl, refl))
            | inr silent ↦ elim (Bool-cases (is_count custom.action)) [
              | inl counts ↦
                  simp (on, pass, short, fine, silent, counts, plain on)
                    (inr (
                      refl,
                      refl,
                      remember_next (is_count limits.action) limits custom counts,
                      refl,
                      refl,
                    ))
              | inr idle ↦
                  simp (on, pass, short, fine, silent, idle, plain on)
                    (inr (refl, refl, only_first (is_count limits.action) limits, refl, refl))
            ]
          ]
        ]
      ]
    ]
  ]
