-- ===== src/Proxy/Decide/Ending.antt =====
-- The stages behind the inspection, and all stages over given answers.
use bedem_waf.Common.{
  ◌≡◌, refl, sym, ap, ◌∙◌, String, Bool, true, false, not, ◌&&◌, Option, none, some, [], ◌∷◌,
  if◌then◌else◌, Bool-cases, inl, inr,
}
use bedem_waf.Common.Result.{Result, ok, err}
use bedem_waf.Decision.{is_allow, is_count, is_block, Decision, block_decision}
use bedem_waf.Policy.{App}
use bedem_waf.Proxy.Decide.{
  Progress, progress, remember, stops, is_allowed, after_waf, after_default, conclude,
  is_terminal_allow, answered,
}
use bedem_waf.Proxy.Decide.Choice.{
  first_some, given, or_decision, given_some, is_custom_allow, late_refusal, later, ruling, front,
  stop-not-allow, only_first, only_first_alone, front_cases,
}

-- The end of the decision, from what the stages in front leave.
abbrev end_of : App → Decision → Option Decision → Bool → Option Decision → Decision
end_of app final observed terminal found =
    or_decision
      (first_some (
        given_some stops found
        ∷ given (is_block app.default_action && not terminal)
            (block_decision "default_action" "default_action")
        ∷ []))
      (or_decision (first_some (observed ∷ given_some (λ d. is_count d.action) found ∷ [])) final)

remembered :
    (observed : Option Decision) (d : Decision)
    → first_some (remember observed d ∷ none ∷ [])
      ≡ first_some (observed ∷ given (is_count d.action) d ∷ [])
remembered none d = sym (only_first (is_count d.action) d) ∙ only_first_alone (is_count d.action) d
remembered (some o) d = refl

-- A refusal stays.
pub end_refused :
    (app : App) (final : Decision) (observed : Option Decision) (terminal : Bool)
    → is_allow final.action ≡ false
    → conclude (after_default app terminal (progress final observed)) ≡ final
unfolding after_default conclude
end_refused app final none terminal refused = simp refused
end_refused app final (some o) terminal refused = simp refused

module _ (app : App) (final : Decision) (allowed : is_allow final.action ≡ true) where
  end_without :
      (observed : Option Decision) (terminal : Bool)
      → conclude (after_default app terminal (progress final observed))
        ≡ end_of app final observed terminal none
  unfolding after_default conclude
  end_without none true = elim (Bool-cases (is_block app.default_action)) [
    | inl e ↦ simp (allowed, e)
    | inr e ↦ simp (allowed, e)
  ]
  end_without (some o) true = elim (Bool-cases (is_block app.default_action)) [
    | inl e ↦ simp (allowed, e)
    | inr e ↦ simp (allowed, e)
  ]
  end_without none false = elim (Bool-cases (is_block app.default_action)) [
    | inl e ↦ simp (allowed, e)
    | inr e ↦ simp (allowed, e)
  ]
  end_without (some o) false = elim (Bool-cases (is_block app.default_action)) [
    | inl e ↦ simp (allowed, e)
    | inr e ↦ simp (allowed, e)
  ]

  end_with :
      (observed : Option Decision) (terminal : Bool) (found : Option Decision)
      → conclude (after_default app terminal (after_waf found (progress final observed)))
        ≡ end_of app final observed terminal found
  unfolding after_waf
  end_with observed terminal none = end_without observed terminal
  end_with observed terminal (some d) = elim (Bool-cases (stops d)) [
    | inl stop ↦ simp stop (end_refused app d observed terminal (stop-not-allow d.action stop))
    | inr pass ↦ simp pass (
        end_without (remember observed d) terminal
        ∙ ap
            (λ (o : Option Decision).
              or_decision
                (first_some (
                  given (is_block app.default_action && not terminal)
                    (block_decision "default_action" "default_action")
                  ∷ []))
                (or_decision o final))
            (remembered observed d))
  ]

first_some_flat :
    (a b c : Option Decision)
    → first_some (first_some (a ∷ b ∷ []) ∷ c ∷ []) ≡ first_some (a ∷ b ∷ c ∷ [])
first_some_flat none none c = refl
first_some_flat none (some d) c = refl
first_some_flat (some d) b c = refl

answered-ok :
    (app : App) (q : Progress) (found : Option Decision)
    → answered app q (ok found)
      ≡ ok (conclude (after_default app (is_terminal_allow q) (after_waf found q)))
unfolding answered
answered-ok app q found = refl

answered-err : (app : App) (q : Progress) (e : String) → answered app q (err e) ≡ err e
unfolding answered
answered-err app q e = refl

module _ (app : App) (ip limits custom : Decision) (exceeded : Bool) where
  unfoldable pub staged : Result String (Option Decision) → Result String Decision
  staged answer =
      let q = front app ip limits custom exceeded in
      if is_allowed q then answered app q answer else ok (conclude (after_default app false q))

  abbrev first_counts : Option Decision
  first_counts =
      first_some
        (given (is_count limits.action) limits ∷ given (is_count custom.action) custom ∷ [])

  pub behind :
      (answer : Result String (Option Decision))
      → is_allowed (front app ip limits custom exceeded) ≡ true
      → (front app ip limits custom exceeded).observed ≡ first_counts
      → (front app ip limits custom exceeded).final
        ≡ (if is_custom_allow custom then custom else ip)
      → is_terminal_allow (front app ip limits custom exceeded) ≡ is_custom_allow custom
      → answered app (front app ip limits custom exceeded) answer
        ≡ later app ip limits custom exceeded answer
  behind (err error) on seen fin terminal =
      answered-err app (front app ip limits custom exceeded) error
  behind (ok found) on seen fin terminal =
      let q = front app ip limits custom exceeded in
      let last = end_with app q.final on q.observed (is_terminal_allow q) found in
      answered-ok app q found
      ∙ ap ok last
      ∙ rw (terminal, fin, seen)
          (ap
            (λ (o : Option Decision). ok (
              or_decision (late_refusal app ip limits custom exceeded found)
                (or_decision o (if is_custom_allow custom then custom else ip))))
            (first_some_flat (given (is_count limits.action) limits)
              (given (is_count custom.action) custom) (given_some (λ d. is_count d.action) found)))

  pub staged-eq-ruling :
      (answer : Result String (Option Decision))
      → (is_allow ip.action ≡ true → is_custom_allow ip ≡ false)
      → (is_custom_allow custom ≡ true → is_allow custom.action ≡ true)
      → staged answer ≡ ruling app ip limits custom exceeded answer
  unfolding staged
  staged-eq-ruling answer plain faithful =
      let q = front app ip limits custom exceeded in
      elim (front_cases app ip limits custom exceeded plain faithful) [
        | inl (d, e, fin, refused) ↦
            let off : is_allowed q ≡ false =
              ap (λ (x : Decision). is_allow x.action) fin ∙ refused in
            rw (off, e) (ap ok (end_refused app q.final q.observed false off ∙ fin))
        | inr (e, on, seen, fin, terminal) ↦ rw (on, e) (behind answer on seen fin terminal)
      ]
