-- ===== src/Proxy/Decide/Verdict.antt =====
-- Which stage decides a request.
use bedem_waf.Common.{
  ℕ, ◌≡◌, refl, ap, ◌∙◌, String, Bool, true, false, Option, none, some, List, [], ◌∷◌,
  if◌then◌else◌, Bool-cases, inl, inr,
}
use bedem_waf.Common.Result.{ok}
use bedem_waf.Go.{Go}
use bedem_waf.Go.Netip.{Addr}
use bedem_waf.Decision.{
  Action, allow, count, block, challenge, rate_limit, other, is_allow, Decision,
}
use bedem_waf.Policy.{App, CustomRule, IpSets, RequestContext}
use bedem_waf.Policy.Matching.{match}
use bedem_waf.Policy.Evaluation.Addresses.{evaluate_ip_cases}
use bedem_waf.Policy.Evaluation.{
  evaluate_ip, evaluate_custom_rules, evaluate_rules, by_action, keep_first, or_allow, custom_count,
}
use bedem_waf.Proxy.{HttpRequest, Engine, Checker}
use bedem_waf.Proxy.Decide.{
  Progress, progress, is_allowed, evaluate_rate_limits, after_limits, after_body, after_custom,
  after_default, conclude, limiter_request, rule_context, inspection_context, answered, decide,
  limits_stage, rules_stage, waf_stage,
}
use bedem_waf.Proxy.Decide.Choice.{is_custom_allow, counted, ruling, front}
use bedem_waf.Proxy.Decide.Ending.{end_refused, staged, staged-eq-ruling}

abbrev IsFaithful : Decision → Type 0
IsFaithful d = is_custom_allow d ≡ true → is_allow d.action ≡ true

-- Only an allow has the reason of a terminal allow.
by_action-IsFaithful :
    (a : Action) (rule : CustomRule) (next counted : Decision)
    → IsFaithful next
    → IsFaithful counted
    → IsFaithful (by_action a rule next counted)
unfolding by_action
by_action-IsFaithful allow rule next counted h k = elim (Bool-cases rule.terminal_allow) [
  | inl e ↦ rw e (λ _. refl)
  | inr e ↦ rw e h
]
by_action-IsFaithful block rule next counted h k = λ e. cc
by_action-IsFaithful count rule next counted h k = k
by_action-IsFaithful challenge rule next counted h k = h
by_action-IsFaithful rate_limit rule next counted h k = h
by_action-IsFaithful (other s e) rule next counted h k = h

module _ (go : Go) where
  keep_first-IsFaithful :
      (first : Option Decision) (rule : CustomRule)
      → IsFaithful (or_allow first)
      → IsFaithful (or_allow (keep_first first (custom_count rule)))
  keep_first-IsFaithful none rule h = λ e. cc
  keep_first-IsFaithful (some d) rule h = h

  evaluate_rules-IsFaithful :
      (ctx : RequestContext) (sets : IpSets) (first : Option Decision) (rules : List CustomRule)
      → IsFaithful (or_allow first)
      → IsFaithful (evaluate_rules go ctx sets first rules)
  unfolding evaluate_rules
  evaluate_rules-IsFaithful ctx sets first [] h = h
  evaluate_rules-IsFaithful ctx sets first (r ∷ rules) h =
      let next = evaluate_rules-IsFaithful ctx sets first rules h in
      let counted =
        evaluate_rules-IsFaithful ctx sets (keep_first first (custom_count r)) rules
          (keep_first-IsFaithful first r h) in
      elim (Bool-cases r.enabled) [
        | inr off ↦ simp off next
        | inl on ↦ elim (Bool-cases (match go ctx sets r.when)) [
          | inr miss ↦ simp (on, miss) next
          | inl hit ↦ simp (on, hit) (by_action-IsFaithful r.action r _ _ next counted)
        ]
      ]

  IsFaithful-rules :
      (app : App) (ctx : RequestContext) → IsFaithful (evaluate_custom_rules go app ctx)
  unfolding evaluate_custom_rules
  IsFaithful-rules app ctx =
      evaluate_rules-IsFaithful ctx app.ip_sets none app.custom_rules (λ e. refl)

  plain_allow :
      (app : App) (ip : Addr)
      → is_allow (evaluate_ip go app ip).action ≡ true
      → is_custom_allow (evaluate_ip go app ip) ≡ false
  plain_allow app ip allowed = elim (evaluate_ip_cases go ip app) [
    | inl (e, admitted) ↦ rw e refl
    | inr (refused, status, away) ↦
        let no : is_allow (evaluate_ip go app ip).action ≡ false = ap is_allow refused in cc
  ]

  limits_stage-result :
      {L : Type 0} (checker : Checker L) (l : L) (app : App) (r : HttpRequest) (ip : Addr)
      (host : String)
      → (limits_stage go checker l app r ip host).0 ≡ (
          if is_allow (evaluate_ip go app ip).action
          then after_limits
              (progress (evaluate_ip go app ip) none)
              (evaluate_rate_limits checker l app (limiter_request go r ip host) app.rate_limits).0
          else progress (evaluate_ip go app ip) none)
  unfolding limits_stage
  limits_stage-result checker l app r ip host =
      elim (Bool-cases (is_allow (evaluate_ip go app ip).action)) [
        | inl on ↦ rw on refl
        | inr off ↦ rw off refl
      ]

  waf_stage-result :
      {W : Type 0} (engine : Engine W) (w : W) (id : String) (app : App) (r : HttpRequest)
      (preview : List ℕ) (ip : Addr) (host : String) (q : Progress)
      → (waf_stage go engine w id app r preview ip host q).0 ≡ (
          if is_allowed q
          then answered app q
              (engine.inspect_request w r preview (inspection_context go id app ip host)).0
          else ok (conclude (after_default app false q)))
  unfolding waf_stage
  waf_stage-result engine w id app r preview ip host q = elim (Bool-cases (is_allowed q)) [
    | inl on ↦ rw on refl
    | inr off ↦ rw off refl
  ]

  -- The decision of a request is one choice among the answers of all stages: the refusal of the
  -- address, of the rate limits, of the body limit or of the custom rules, in this order; behind
  -- none of these an error of the inspection is the result, and else its refusal, or the block of
  -- the default action unless a custom rule with a terminal allow decided; and where nothing
  -- refuses, the first decision to count, of the rate limits, the custom rules and the inspection,
  -- and otherwise the allow of the custom rules or of the address.
  pub decide-eq-ruling :
      {L W : Type 0} (checker : Checker L) (engine : Engine W) (l : L) (w : W) (id : String)
      (app : App) (r : HttpRequest) (preview : List ℕ) (exceeded : Bool) (ip : Addr) (host : String)
      → (decide go checker engine l w id app r preview exceeded ip host).0
        ≡ ruling app
            (evaluate_ip go app ip)
            (evaluate_rate_limits checker l app (limiter_request go r ip host) app.rate_limits).0
            (evaluate_custom_rules go app (rule_context go r ip host))
            exceeded
            (engine.inspect_request w r preview (inspection_context go id app ip host)).0
  unfolding decide rules_stage staged front
  decide-eq-ruling checker engine l w id app r preview exceeded ip host =
      let limits =
        evaluate_rate_limits checker l app (limiter_request go r ip host) app.rate_limits in
      let custom = evaluate_custom_rules go app (rule_context go r ip host) in
      let answer = engine.inspect_request w r preview (inspection_context go id app ip host) in
      waf_stage-result engine w id app r preview ip host _
      ∙ ap
          (λ (p : Progress).
            let q = after_custom custom (after_body exceeded p) in
            if is_allowed q
            then answered app q answer.0
            else ok (conclude (after_default app false q)))
          (limits_stage-result checker l app r ip host)
      ∙ staged-eq-ruling app (evaluate_ip go app ip) limits.0 custom exceeded answer.0
          (plain_allow app ip) (IsFaithful-rules app (rule_context go r ip host))

  limits_stage_refused :
      {L : Type 0} (checker : Checker L) (l : L) (app : App) (r : HttpRequest) (ip : Addr)
      (host : String)
      → is_allow (evaluate_ip go app ip).action ≡ false
      → limits_stage go checker l app r ip host ≡ (progress (evaluate_ip go app ip) none, l)
  unfolding limits_stage
  limits_stage_refused checker l app r ip host off = rw off refl

  rules_stage_refused :
      (app : App) (r : HttpRequest) (ip : Addr) (host : String) (exceeded : Bool) (d : Decision)
      → is_allow d.action ≡ false
      → rules_stage go app r ip host exceeded (progress d none) ≡ progress d none
  unfolding rules_stage after_body after_custom
  rules_stage_refused app r ip host exceeded d off = simp off

  waf_stage_refused :
      {W : Type 0} (engine : Engine W) (w : W) (id : String) (app : App) (r : HttpRequest)
      (preview : List ℕ) (ip : Addr) (host : String) (d : Decision)
      → is_allow d.action ≡ false
      → waf_stage go engine w id app r preview ip host (progress d none) ≡ (ok d, w)
  unfolding waf_stage
  waf_stage_refused engine w id app r preview ip host d off =
      let kept = end_refused app d none false off in simp (off, kept)

  -- Behind a refused address the decision is that refusal, and neither the rate limiter nor the
  -- inspection is asked: both keep their states.
  pub decide_refused_address :
      {L W : Type 0} (checker : Checker L) (engine : Engine W) (l : L) (w : W) (id : String)
      (app : App) (r : HttpRequest) (preview : List ℕ) (exceeded : Bool) (ip : Addr) (host : String)
      → is_allow (evaluate_ip go app ip).action ≡ false
      → decide go checker engine l w id app r preview exceeded ip host
        ≡ (ok (evaluate_ip go app ip), (l, w))
  unfolding decide
  decide_refused_address checker engine l w id app r preview exceeded ip host off =
      let first = limits_stage_refused checker l app r ip host off in
      let next = rules_stage_refused app r ip host exceeded (evaluate_ip go app ip) off in
      let last = waf_stage_refused engine w id app r preview ip host (evaluate_ip go app ip) off in
      rw (first, next, last) refl
