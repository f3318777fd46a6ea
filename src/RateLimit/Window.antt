-- ===== src/RateLimit/Window.antt =====
-- The fixed window over the store in memory: what a history of calls leaves in the counters, and
-- which call is let through.
use bedem_waf.Common.{
  ℕ, suc, ◌+◌, ◌^◌, ◌≤◌, ◌<◌, ◌≡◌, refl, ap, ◌∙◌, String, Bool, true, ◌&&◌, List, [], ◌∷◌, arith,
  length, ◌==◌, eq_iff, inl, inr, Bool-cases, leb, if◌then◌else◌,
}
use bedem_waf.Common.Int.{ℤ, pos, wrap_64, wrap_64_of_small, leb_ℤ, ◌+ℤ◌}
use bedem_waf.Common.Result.{ok}
use bedem_waf.Go.{Go}
use bedem_waf.Go.Maps.{GoMap, lookup, insert, lookup-insert}
use bedem_waf.Decision.{Action, allow, count, rate_limit, Decision, is_block}
use bedem_waf.Policy.{App, RateLimitRule}
use bedem_waf.RateLimit.{
  Request, Limiter, applies, counter_key, check, limit_decision, within_decision, exceeded_decision,
}
use bedem_waf.RateLimit.Store.{or_zero, count_of, increment_memory, memory_store}

-- One call of Check.
pub record Call : Type 0 where
  pub now : ℕ
  pub app : App
  pub request : Request
  pub rule : RateLimitRule

abbrev pub in_memory : Bool → Limiter (GoMap ℤ)
in_memory fail_closed = record { store = memory_store; fail_closed = fail_closed }

next_small : (n : ℕ) → suc n < 2 ^ 63 → wrap_64 (pos n +ℤ pos 1) ≡ pos (suc n)
unfolding ◌+ℤ◌
next_small n h =
    let e : pos n +ℤ pos 1 ≡ pos (suc n) = ground arith in rw e (wrap_64_of_small (suc n) h)

count_of-insert :
    (s : GoMap ℤ) (key k : String) (v : ℤ)
    → count_of k (insert key v s) ≡ (if key == k then v else count_of k s)
unfolding count_of
count_of-insert s key k v =
    ap or_zero (lookup-insert key k v s)
    ∙ elim (Bool-cases (key == k)) [ inl e ↦ rw e | inr e ↦ rw e ]

count_of-increment :
    (s : GoMap ℤ) (key k : String) (limit window : ℤ) (n : ℕ)
    → count_of k s ≡ pos n
    → suc n < 2 ^ 63
    → count_of k (increment_memory s key limit window).1 ≡ pos (if key == k then suc n else n)
unfolding increment_memory
count_of-increment s key k limit window n h fits = elim (Bool-cases (key == k)) [
  | inl e ↦
      let same : count_of key s ≡ pos n = ap (λ j. count_of j s) ((eq_iff key k).0 e) ∙ h in
      rw (count_of-insert, e, same) (next_small n fits)
  | inr e ↦ rw (count_of-insert, e) h
]

count_of-empty : (k : String) → count_of k [] ≡ pos 0
unfolding count_of lookup
count_of-empty k = refl

-- Let through, or limited in the way of the rule.
abbrev pub action_by : RateLimitRule → Bool → Action
action_by rule passed = if passed then allow else if is_block rule.action then rate_limit else count

leb_pos : (a b : ℕ) → leb_ℤ (pos a) (pos b) ≡ leb a b
leb_pos a b = ground arith

limit_decision-action :
    (fail_closed : Bool) (rule : RateLimitRule) (reset_at : ℕ) (hits remaining : ℤ)
    → (limit_decision fail_closed rule reset_at (ok (hits, remaining))).action
      ≡ action_by rule (leb_ℤ hits rule.limit)
unfolding limit_decision within_decision exceeded_decision
limit_decision-action fail_closed rule reset_at hits remaining =
    elim (Bool-cases (leb_ℤ hits rule.limit)) [ inl e ↦ rw e | inr e ↦ rw e ]

module _ (go : Go) (fail_closed : Bool) where
  abbrev pub serve_call : GoMap ℤ → Call → Decision × GoMap ℤ
  serve_call s c = check go (in_memory fail_closed) s c.now c.app c.request c.rule

  -- The counters behind a history of calls.
  pub serve_calls : GoMap ℤ → List Call → GoMap ℤ
  serve_calls s [] = s
  serve_calls s (c ∷ cs) = serve_calls (serve_call s c).1 cs

  -- The call is counted under this key: its rule applies, and its tenant, app, rule, hashed key part
  -- and window make the key.
  abbrev pub counts_for : String → Call → Bool
  counts_for k c =
      applies go c.app c.request c.rule && counter_key go c.now c.app c.request c.rule == k

  unfoldable pub calls_for : String → List Call → ℕ
  calls_for k [] = 0
  calls_for k (c ∷ cs) = if counts_for k c then suc (calls_for k cs) else calls_for k cs

  calls_for-le : (k : String) (cs : List Call) → calls_for k cs ≤ length cs
  unfolding calls_for
  calls_for-le k [] = omega arith
  calls_for-le k (c ∷ cs) = elim (Bool-cases (counts_for k c)) [
    | inl e ↦ rw e (omega (arith, calls_for-le k cs))
    | inr e ↦ rw e (omega (arith, calls_for-le k cs))
  ]

  count_after :
      (s : GoMap ℤ) (c : Call) (k : String) (n : ℕ)
      → count_of k s ≡ pos n
      → suc n < 2 ^ 63
      → count_of k (serve_call s c).1 ≡ pos (if counts_for k c then suc n else n)
  unfolding check
  count_after s c k n h fits = elim (Bool-cases (applies go c.app c.request c.rule)) [
    | inr off ↦ rw off h
    | inl on ↦ rw on (
        count_of-increment s (counter_key go c.now c.app c.request c.rule) k c.rule.limit
          c.rule.window_seconds n h fits)
  ]

  -- Behind any history of calls that starts with n on a key, the key holds n plus the number of calls
  -- that are counted under it, as long as a 64-bit counter holds that many.
  pub serve_calls-count :
      (s : GoMap ℤ) (cs : List Call) (k : String) (n : ℕ)
      → count_of k s ≡ pos n
      → suc (n + length cs) < 2 ^ 63
      → count_of k (serve_calls s cs) ≡ pos (n + calls_for k cs)
  unfolding serve_calls calls_for
  serve_calls-count s [] k n h fits = let e : n + 0 ≡ n = omega arith in rw e h
  serve_calls-count s (c ∷ cs) k n h fits = elim (Bool-cases (counts_for k c)) [
    | inl e ↦
        let step : count_of k (serve_call s c).1 ≡ pos (suc n) =
          count_after s c k n h (omega arith) ∙ rw e refl in
        let swap : suc n + calls_for k cs ≡ n + suc (calls_for k cs) = omega arith in
        rw (e, ← swap) (serve_calls-count (serve_call s c).1 cs k (suc n) step (omega arith))
    | inr e ↦
        let step : count_of k (serve_call s c).1 ≡ pos n =
          count_after s c k n h (omega arith) ∙ rw e refl in
        rw e (serve_calls-count (serve_call s c).1 cs k n step (omega arith))
  ]

  decision_at :
      (s : GoMap ℤ) (c : Call) (n l : ℕ)
      → applies go c.app c.request c.rule ≡ true
      → c.rule.limit ≡ pos l
      → count_of (counter_key go c.now c.app c.request c.rule) s ≡ pos n
      → suc n < 2 ^ 63
      → (serve_call s c).0.action ≡ action_by c.rule (leb (suc n) l)
  unfolding check increment_memory
  decision_at s c n l on limit h fits =
      let e = ap (λ (z : ℤ). wrap_64 (z +ℤ pos 1)) h ∙ next_small n fits in
      rw on (
        limit_decision-action fail_closed c.rule _ _ _
        ∙ ap (λ (z : ℤ). action_by c.rule (leb_ℤ z c.rule.limit)) e
        ∙ ap (λ (m : ℤ). action_by c.rule (leb_ℤ (pos (suc n)) m)) limit
        ∙ ap (action_by c.rule) (leb_pos (suc n) l))

  -- The call behind a history that started with an empty store is let through when fewer calls than
  -- the limit were counted under its key, and otherwise it is limited: with the action rate_limit
  -- where the rule blocks, with count where it counts.
  pub fixed_window_of_key :
      (cs : List Call) (c : Call) (l : ℕ)
      → applies go c.app c.request c.rule ≡ true
      → c.rule.limit ≡ pos l
      → suc (length cs) < 2 ^ 63
      → (serve_call (serve_calls [] cs) c).0.action
        ≡ action_by c.rule
            (leb (suc (calls_for (counter_key go c.now c.app c.request c.rule) cs)) l)
  fixed_window_of_key cs c l on limit fits =
      let k = counter_key go c.now c.app c.request c.rule in
      let counted = serve_calls-count [] cs k 0 (count_of-empty k) (omega arith) in
      decision_at (serve_calls [] cs) c (calls_for k cs) l on limit (counted ∙ ap pos (omega arith))
        (omega (arith, calls_for-le k cs))
