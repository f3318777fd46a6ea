-- ===== src/Policy/Matching/Meaning.antt =====
-- The meaning of a condition: Match tests its operators in a fixed order and stops at the first that
-- is given; on a validated condition the order does not matter.
use bedem_waf.Common.{
  ◌≡◌, refl, Bool, true, false, not, ◌&&◌, ◌||◌, List, [], ◌∷◌, arith, any, is_some, if◌then◌else◌,
  ◌==◌, Option, none, some,
}
use bedem_waf.Common.Result.{ok}
use bedem_waf.Go.{Go}
use bedem_waf.Go.Strings.{has_prefix}
use bedem_waf.Config.{NameValue, Operators, Condition, condition, Conditions, nil, cons}
use bedem_waf.Policy.{IpSets, RequestContext}
use bedem_waf.Policy.Host.{normalize_host}
use bedem_waf.Policy.Matching.{
  is_given, is_cons, on_some, header_contains, header_equals, query_param_contains, ip_in_set,
  set_of, match_operators, match, match_all, match_any,
}
use bedem_waf.Policy.Validation.{
  count_true, given, parse_condition, parsed_operators, canonical_pair,
}
use bedem_waf.Policy.Validation.Accepted.{
  IsAccepted, AreAccepted, canonical, canonical_all, parse_condition_iff,
}

-- The first test that is given, and any test that is given.
abbrev first_given : List (Bool × Bool) → Bool
first_given [] = false
first_given ((p, h) ∷ r) = if p then h else first_given r

abbrev pub any_given : List (Bool × Bool) → Bool
any_given [] = false
any_given ((p, h) ∷ r) = (p && h) || any_given r

abbrev givens : List (Bool × Bool) → List Bool
givens [] = []
givens ((p, h) ∷ r) = p ∷ givens r

any_given_none : (l : List (Bool × Bool)) → count_true (givens l) ≡ 0 → any_given l ≡ false
unfolding count_true
any_given_none [] h = refl
any_given_none ((true, b) ∷ r) h = absurd (omega arith)
any_given_none ((false, b) ∷ r) h = any_given_none r h

first-eq-any : (l : List (Bool × Bool)) → count_true (givens l) ≡ 1 → first_given l ≡ any_given l
unfolding count_true
first-eq-any [] h = refl
first-eq-any ((true, b) ∷ r) h = ground (arith, any_given_none r)
first-eq-any ((false, b) ∷ r) h = first-eq-any r h

-- Exactly one operator at every node.
abbrev mutual
  pub IsSingle : Condition → Type 0
  IsSingle (condition all any o) =
      (count_true (given all any o) ≡ 1) × AreSingle all × AreSingle any

  pub AreSingle : Conditions → Type 0
  AreSingle nil = Unit
  AreSingle (cons c cs) = IsSingle c × AreSingle cs

module _ (go : Go) where
  is_cons-canonical : (cs : Conditions) → is_cons (canonical_all go cs) ≡ is_cons cs
  is_cons-canonical nil = refl
  is_cons-canonical (cons c cs) = refl

  is_some-canonical_pair : (h : Option NameValue) → is_some (canonical_pair go h) ≡ is_some h
  is_some-canonical_pair none = refl
  is_some-canonical_pair (some h) = refl

  given-canonical :
      (all any : Conditions) (o : Operators)
      → given (canonical_all go all) (canonical_all go any) (parsed_operators go o)
        ≡ given all any o
  given-canonical all any o = rw (
    is_cons-canonical all,
    is_cons-canonical any,
    is_some-canonical_pair o.header_contains,
    is_some-canonical_pair o.header_equals,
  )

  mutual
    canonical-IsSingle :
        (ip_sets : IpSets) (c : Condition) → IsAccepted ip_sets c → IsSingle (canonical go c)
    canonical-IsSingle ip_sets (condition all any o) h = (
      rw given-canonical h.0.single,
      canonical_all-AreSingle ip_sets all h.1,
      canonical_all-AreSingle ip_sets any h.2,
    )

    canonical_all-AreSingle :
        (ip_sets : IpSets) (cs : Conditions)
        → AreAccepted ip_sets cs
        → AreSingle (canonical_all go cs)
    canonical_all-AreSingle ip_sets nil h = tt
    canonical_all-AreSingle ip_sets (cons c cs) h =
        (canonical-IsSingle ip_sets c h.0, canonical_all-AreSingle ip_sets cs h.1)

-- Every node of a parsed condition has exactly one operator.
pub IsSingle-of_parsed :
    (go : Go) (ip_sets : IpSets) (c c' : Condition)
    → parse_condition go ip_sets c ≡ ok c'
    → IsSingle c'
IsSingle-of_parsed go ip_sets c c' h =
    let (good, same) = (parse_condition_iff go ip_sets c c').0 h in
    rw same (canonical-IsSingle go ip_sets c good)

module _ (go : Go) (ctx : RequestContext) (ip_sets : IpSets) where
  -- Each operator with the question whether it holds of the request.
  abbrev pub operator_tests : Operators → List (Bool × Bool)
  operator_tests o =
      (is_given o.method_equals, go.equal_fold ctx.method o.method_equals)
      ∷ (is_given o.path_equals, ctx.path == o.path_equals)
      ∷ (is_given o.path_starts_with, has_prefix ctx.path o.path_starts_with)
      ∷ (is_given o.host_equals, normalize_host go ctx.host == normalize_host go o.host_equals)
      ∷ (is_some o.header_contains, on_some (header_contains go ctx.headers) o.header_contains)
      ∷ (is_some o.header_equals, on_some (header_equals go ctx.headers) o.header_equals)
      ∷ (
        is_some o.query_param_contains,
        on_some (query_param_contains go ctx ip_sets) o.query_param_contains,
      )
      ∷ (
        is_given o.client_ip_in_ip_set,
        ip_in_set ctx.client_ip (set_of o.client_ip_in_ip_set ip_sets),
      )
      ∷ (
        is_given o.client_ip_not_in_ip_set,
        not (ip_in_set ctx.client_ip (set_of o.client_ip_not_in_ip_set ip_sets)),
      )
      ∷ []

  -- Some operator of the condition, in no order, is given and holds.
  unfoldable mutual
    pub meaning : Condition → Bool
    meaning (condition all any o) =
        any_given ((is_cons all, all_mean all) ∷ (is_cons any, any_means any) ∷ operator_tests o)

    pub all_mean : Conditions → Bool
    all_mean nil = true
    all_mean (cons c cs) = meaning c && all_mean cs

    pub any_means : Conditions → Bool
    any_means nil = false
    any_means (cons c cs) = meaning c || any_means cs

  match_operators-eq-first :
      (o : Operators) → match_operators go ctx ip_sets o ≡ first_given (operator_tests o)
  unfolding match_operators
  match_operators-eq-first o = refl

  mutual
    unfolding match meaning

    match-eq-meaning : (c : Condition) → IsSingle c → match go ctx ip_sets c ≡ meaning c
    match-eq-meaning (condition all any o) h =
        rw (match_all-eq-mean all h.1, match_any-eq-mean any h.2, match_operators-eq-first o)
          (first-eq-any
            ((is_cons all, all_mean all) ∷ (is_cons any, any_means any) ∷ operator_tests o) h.0)

    match_all-eq-mean : (cs : Conditions) → AreSingle cs → match_all go ctx ip_sets cs ≡ all_mean cs
    match_all-eq-mean nil h = refl
    match_all-eq-mean (cons c cs) h = cc (match-eq-meaning c h.0, match_all-eq-mean cs h.1)

    match_any-eq-mean :
        (cs : Conditions) → AreSingle cs → match_any go ctx ip_sets cs ≡ any_means cs
    match_any-eq-mean nil h = refl
    match_any-eq-mean (cons c cs) h = cc (match-eq-meaning c h.0, match_any-eq-mean cs h.1)

  -- A condition that was parsed, against any sets, holds of a request exactly when some operator of
  -- it, in no order, is given and holds: all the children of All, some child of Any, or its test.
  pub match-eq-meaning_of_parsed :
      (parse_sets : IpSets) (c c' : Condition)
      → parse_condition go parse_sets c ≡ ok c'
      → match go ctx ip_sets c' ≡ meaning c'
  match-eq-meaning_of_parsed parse_sets c c' h =
      match-eq-meaning c' (IsSingle-of_parsed go parse_sets c c' h)
