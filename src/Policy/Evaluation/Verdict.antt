-- ===== src/Policy/Evaluation/Verdict.antt =====
-- Which custom rule decides a request.
use bedem_waf.Common.{
  ◌≡◌, refl, ◌⊎◌, inl, inr, Bool, true, false, ◌&&◌, ◌||◌, Option, none, some, List, [], ◌∷◌, arith,
  All, Member, Bool-cases, if◌then◌else◌,
}
use bedem_waf.Common.Int.{ℤ, ◌≤ℤ◌}
use bedem_waf.Common.Sort.{IsSortedBy}
use mathlib.Core.Option
use bedem_waf.Go.{Go}
use bedem_waf.Decision.{
  Action, allow, count, block, challenge, rate_limit, other, is_allow, is_block, is_count, Decision,
  allow_decision,
}
use bedem_waf.Policy.{CustomRule, IpSets, App, RequestContext}
use bedem_waf.Policy.Matching.{match}
use bedem_waf.Policy.Evaluation.{
  custom_block, custom_count, custom_allow, keep_first, by_action, evaluate_rules,
  evaluate_custom_rules,
}

-- The first element that passes a test.
module _ {A : Type 0} (p : A → Bool) where
  find_first : List A → Option A
  find_first [] = none
  find_first (x ∷ xs) = if p x then some x else find_first xs

  All-drop :
      (key : A → ℤ) (x : A) (xs : List A)
      → All (λ y. key x ≤ℤ key y) xs
      → All (λ y. p y ≡ true → key x ≤ℤ key y) xs
  All-drop key x [] h = tt
  All-drop key x (y ∷ ys) h = (λ _. h.0, All-drop key x ys h.1)

  -- Nothing passes; or what is found passes, stands in the list, and in a sorted list has the least
  -- key of all that pass.
  find_first_cases :
      (key : A → ℤ) (xs : List A)
      → IsSortedBy key xs
      → ((find_first xs ≡ none) × All (λ y. p y ≡ false) xs)
        ⊎ ((x : A) × (find_first xs ≡ some x)
            × (p x ≡ true)
            × Member x xs
            × All (λ y. p y ≡ true → key x ≤ℤ key y) xs)
  unfolding find_first
  find_first_cases key [] h = inl (refl, tt)
  find_first_cases key (x ∷ xs) h = elim (Bool-cases (p x)) [
    | inl hit ↦ rw hit (inr (x, refl, hit, inl refl, (λ _. omega arith, All-drop key x xs h.0)))
    | inr miss ↦ elim (find_first_cases key xs h.1) [
      | inl (e, none_pass) ↦ rw miss (inl (e, (refl, none_pass)))
      | inr (y, e, hit, m, least) ↦ rw miss (inr (y, e, hit, inr m, (λ bad. cc, least)))
    ]
  ]

-- It ends the evaluation: a block, or an allow that is marked as terminal.
abbrev pub is_final : CustomRule → Bool
is_final r = is_block r.action || (is_allow r.action && r.terminal_allow)

-- The decision that a rule with this action makes.
abbrev pub decision_as : Action → CustomRule → Decision
decision_as a r = if is_block a then custom_block r else custom_allow r

counted_or : Option Decision → Option Decision → Decision
counted_or (some d) found = d
counted_or none none = allow_decision
counted_or none (some d) = d

-- From the count that was kept, what the first decisive and the first counting rule decide.
verdict_of : Option Decision → Option Decision → Option Decision → Decision
verdict_of first (some d) found = d
verdict_of first none found = counted_or first found

abbrev or_else {ℓ} : {A : Type ℓ} → Bool → A → Option A → Option A
or_else b a o = if b then some a else o

by_action-eq-verdict :
    (r : CustomRule) (a : Action) (first : Option Decision) (next counted : Decision)
    (found counts : Option Decision)
    → next ≡ verdict_of first found counts
    → counted ≡ verdict_of (keep_first first (custom_count r)) found counts
    → by_action a r next counted
      ≡ verdict_of first
          (or_else (is_block a || (is_allow a && r.terminal_allow)) (decision_as a r) found)
          (or_else (is_count a) (custom_count r) counts)
unfolding by_action verdict_of counted_or
by_action-eq-verdict r allow first next counted found counts h k =
    elim (Bool-cases r.terminal_allow) [ inl t ↦ rw t refl | inr t ↦ rw t h ]
by_action-eq-verdict r block first next counted found counts h k = refl
by_action-eq-verdict r count none next counted none counts h k = k
by_action-eq-verdict r count (some d) next counted none counts h k = k
by_action-eq-verdict r count first next counted (some d) counts h k = k
by_action-eq-verdict r challenge first next counted found counts h k = h
by_action-eq-verdict r rate_limit first next counted found counts h k = h
by_action-eq-verdict r (other s e) first next counted found counts h k = h

module _ (go : Go) (ctx : RequestContext) (ip_sets : IpSets) where
  -- The rule is on and its condition holds of the request.
  abbrev pub fires : CustomRule → Bool
  fires r = r.enabled && match go ctx ip_sets r.when

  abbrev pub is_decisive : CustomRule → Bool
  is_decisive r = fires r && is_final r

  abbrev pub is_counting : CustomRule → Bool
  is_counting r = fires r && is_count r.action

  abbrev decided : List CustomRule → Option Decision
  decided rules =
      Option.map (λ (r : CustomRule). decision_as r.action r) (find_first is_decisive rules)

  abbrev counts : List CustomRule → Option Decision
  counts rules = Option.map (λ (r : CustomRule). custom_count r) (find_first is_counting rules)

  map_find :
      (p : CustomRule → Bool) (f : CustomRule → Decision) (r : CustomRule) (rules : List CustomRule)
      → Option.map f (find_first p (r ∷ rules))
        ≡ or_else (p r) (f r) (Option.map f (find_first p rules))
  unfolding find_first
  map_find p f r rules = elim (Bool-cases (p r)) [ inl e ↦ rw e | inr e ↦ rw e ]

  evaluate_rules-eq-verdict :
      (first : Option Decision) (rules : List CustomRule)
      → evaluate_rules go ctx ip_sets first rules ≡ verdict_of first (decided rules) (counts rules)
  unfolding evaluate_rules find_first verdict_of counted_or
  evaluate_rules-eq-verdict none [] = refl
  evaluate_rules-eq-verdict (some d) [] = refl
  evaluate_rules-eq-verdict first (r ∷ rules) =
      let next = evaluate_rules-eq-verdict first rules in
      let counted = evaluate_rules-eq-verdict (keep_first first (custom_count r)) rules in
      let found = map_find is_decisive (λ (x : CustomRule). decision_as x.action x) r rules in
      let kept = map_find is_counting (λ (x : CustomRule). custom_count x) r rules in
      rw (found, kept)
        (elim (Bool-cases r.enabled) [
          | inr off ↦ simp off next
          | inl on ↦ elim (Bool-cases (match go ctx ip_sets r.when)) [
            | inr misses ↦ simp (on, misses) next
            | inl hits ↦
                simp (on, hits)
                  (by_action-eq-verdict r r.action first _ _ (decided rules) (counts rules) next
                    counted)
          ]
        ])

  -- The three ends of an evaluation, over the rules of the app.
  abbrev pub IsDecided : List CustomRule → Decision → Type 0
  IsDecided rules d =
      (r : CustomRule) × Member r rules
      × (is_decisive r ≡ true)
      × All (λ s. is_decisive s ≡ true → r.priority ≤ℤ s.priority) rules
      × (d ≡ decision_as r.action r)

  abbrev pub IsCounted : List CustomRule → Decision → Type 0
  IsCounted rules d =
      All (λ s. is_decisive s ≡ false) rules
      × ((r : CustomRule) × Member r rules
          × (is_counting r ≡ true)
          × All (λ s. is_counting s ≡ true → r.priority ≤ℤ s.priority) rules
          × (d ≡ custom_count r))

  abbrev pub IsPassed : List CustomRule → Decision → Type 0
  IsPassed rules d =
      All (λ s. is_decisive s ≡ false) rules
      × All (λ s. is_counting s ≡ false) rules
      × (d ≡ allow_decision)

  verdict_cases :
      (rules : List CustomRule)
      → IsSortedBy (λ r. r.priority) rules
      → IsDecided rules (evaluate_rules go ctx ip_sets none rules)
        ⊎ IsCounted rules (evaluate_rules go ctx ip_sets none rules)
        ⊎ IsPassed rules (evaluate_rules go ctx ip_sets none rules)
  unfolding verdict_of counted_or
  verdict_cases rules sorted =
      let key : CustomRule → ℤ = λ r. r.priority in
      let same = evaluate_rules-eq-verdict none rules in
      elim (find_first_cases is_decisive key rules sorted) [
        | inl (e, idle) ↦ elim (find_first_cases is_counting key rules sorted) [
          | inl (e', quiet) ↦ inr (inr (idle, quiet, cc (same, e, e')))
          | inr (r, e', hit, m, least) ↦ inr (inl (idle, (r, m, hit, least, rw (same, e, e'))))
        ]
        | inr (r, e, hit, m, least) ↦ inl (r, m, hit, least, rw (same, e))
      ]

-- EvaluateCustomRules over rules in order of priority. A rule decides when it is on, its condition
-- holds and it blocks or is a terminal allow: of those the one with the least priority decides, if
-- there is one. Otherwise the counting rule with the least priority is recorded, if one fires, and
-- otherwise the request passes with the plain allow decision.
pub evaluate_custom_rules_cases :
    (go : Go) (app : App) (ctx : RequestContext)
    → IsSortedBy (λ r. r.priority) app.custom_rules
    → IsDecided go ctx app.ip_sets app.custom_rules (evaluate_custom_rules go app ctx)
      ⊎ IsCounted go ctx app.ip_sets app.custom_rules (evaluate_custom_rules go app ctx)
      ⊎ IsPassed go ctx app.ip_sets app.custom_rules (evaluate_custom_rules go app ctx)
unfolding evaluate_custom_rules
evaluate_custom_rules_cases go app ctx sorted =
    verdict_cases go ctx app.ip_sets app.custom_rules sorted
