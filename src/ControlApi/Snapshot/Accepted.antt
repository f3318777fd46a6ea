-- ===== src/ControlApi/Snapshot/Accepted.antt =====
-- What the checks of a snapshot establish for the gateway's parsers.
use bedem_waf.Common.{
  ℕ, String, false, not, ◌||◌, ◌≡◌, ◌≢◌, refl, arith, Option, none, some, List, [], ◌∷◌, ◌==◌, eqb,
  eq_iff, ne→eq-false, All, Bool-cases, inl, inr, map,
}
use bedem_waf.Common.Result.{ok, err, >>-eq-ok, refuse->>-eq-ok, refuse-eq-ok}
use bedem_waf.Go.{Go}
use bedem_waf.Go.Text.{trim_space}
use bedem_waf.Go.Maps.{GoMap, has_key}
use bedem_waf.Config.{NameValue, Operators, Condition, condition, Conditions, nil, cons}
use bedem_waf.Decision.{action_of, is_allow, is_count, is_block}
use bedem_waf.Decision.Enforcement.{action_of-constant_of}
use bedem_waf.Policy.{IpSets}
use bedem_waf.Policy.Matching.{on_some}
use bedem_waf.Policy.Validation.{count_true, given, incomplete, misses, Parsed, parse_condition}
use bedem_waf.Policy.Validation.Accepted.{
  IsAcceptedNode, IsAccepted, AreAccepted, canonical, parse_condition_iff,
}
use bedem_waf.Policy.Rules.{is_member, rules_from}
use bedem_waf.Policy.Rules.Order.{AreDistinct}
use bedem_waf.ControlApi.Names.{Checked}
use bedem_waf.ControlApi.Snapshot.{
  SnapshotChecked, check_each, is_blank_pair, lacks_set, validate_operators,
  validate_policy_condition, validate_children, from_checked,
}

module _ {A : Type 0} (check : A → SnapshotChecked) where
  pub check_each-All : (xs : List A) → check_each check xs ≡ ok tt → All (λ x. check x ≡ ok tt) xs
  unfolding check_each
  check_each-All [] h = tt
  check_each-All (x ∷ xs) h =
      let (first, rest) = >>-eq-ok (check x) _ h in (first, check_each-All xs rest)

pub from_checked-eq-ok : (m : Checked) → from_checked m ≡ ok tt → m ≡ ok tt
from_checked-eq-ok (ok tt) h = refl
from_checked-eq-ok (err e) h = cc

-- A text that is not blank is not empty.
pub given_of_trimmed : (go : Go) (s : String) → (trim_space go s == "") ≡ false → (s == "") ≡ false
unfolding trim_space
given_of_trimmed go s h = ne→eq-false s "" (λ e. let g : ("" == "") ≡ false = rw e at h in cc)

-- The sets of the gateway have the names of the snapshot's.
abbrev pub HasNamesOf : GoMap (List String) → IpSets → Type 0
HasNamesOf raw sets = (name : String) → has_key name sets ≡ has_key name raw

module _ (go : Go) (raw : GoMap (List String)) (sets : IpSets) (names : HasNamesOf raw sets) where
  incomplete_of_blank : (h : NameValue) → is_blank_pair go raw h ≡ false → incomplete h ≡ false
  unfolding is_blank_pair incomplete
  incomplete_of_blank h e =
      let given = given_of_trimmed go h.name (ground (arith, e)) in ground (arith, given, e)

  on_some_of :
      (o : Option NameValue)
      → on_some (is_blank_pair go raw) o ≡ false
      → on_some incomplete o ≡ false
  on_some_of none e = refl
  on_some_of (some h) e = incomplete_of_blank h e

  misses_of : (name : String) → lacks_set go raw name ≡ false → misses name sets ≡ false
  unfolding lacks_set misses
  misses_of name e = rw (names name) e

  eqb_one : (n : ℕ) → not (eqb n 1) ≡ false → n ≡ 1
  eqb_one n h = ground arith

  operators_of :
      (all any : Conditions) (o : Operators)
      → not (eqb (count_true (given all any o)) 1) ≡ false
      → validate_operators go raw o ≡ ok tt
      → IsAcceptedNode sets all any o
  unfolding validate_operators
  operators_of all any o one h =
      let (contains, h₂) = refuse->>-eq-ok _ _ _ h in
      let (equals, h₃) = refuse->>-eq-ok _ _ _ h₂ in
      let (query, h₄) = refuse->>-eq-ok _ _ _ h₃ in
      let (known, h₅) = refuse->>-eq-ok _ _ _ h₄ in
      record {
        single = eqb_one _ one;
        header_contains = on_some_of o.header_contains contains;
        header_equals = on_some_of o.header_equals equals;
        query_param = on_some_of o.query_param_contains query;
        known = misses_of o.client_ip_in_ip_set known;
        known_not = misses_of o.client_ip_not_in_ip_set (refuse-eq-ok _ _ h₅);
      }

  mutual
    unfolding validate_policy_condition

    IsAccepted-of : (c : Condition) → validate_policy_condition go raw c ≡ ok tt → IsAccepted sets c
    IsAccepted-of (condition all any o) h =
        let (one, h₁) = refuse->>-eq-ok _ _ _ h in
        let (good, h₂) = >>-eq-ok (validate_children go raw all) _ h₁ in
        let (good', h₃) = >>-eq-ok (validate_children go raw any) _ h₂ in
        (operators_of all any o one h₃, children_of all good, children_of any good')

    children_of : (cs : Conditions) → validate_children go raw cs ≡ ok tt → AreAccepted sets cs
    children_of nil h = tt
    children_of (cons c cs) h =
        let (first, rest) = >>-eq-ok (validate_policy_condition go raw c) _ h in
        (IsAccepted-of c first, children_of cs rest)

  pub parses :
      (c : Condition)
      → validate_policy_condition go raw c ≡ ok tt
      → parse_condition go sets c ≡ ok (canonical go c)
  parses c h = (parse_condition_iff go sets c (canonical go c)).1 (IsAccepted-of c h, refl)

-- The gateway's parsers of rules succeed on rules with distinct names.
module _ (go : Go) {V R : Type 0} (id : V → String) (parse : V → Parsed R) where
  abbrev pub IsParsed : V → Type 0
  IsParsed v = ((trim_space go (id v) == "") ≡ false) × ((r : R) × (parse v ≡ ok r))

  abbrev pub IsFresh : List String → V → Type 0
  IsFresh seen v = is_member (id v) seen ≡ false

  IsFresh-behind :
      (x : String) (seen : List String) (vs : List V)
      → All (λ y. x ≢ y) (map id vs)
      → All (IsFresh seen) vs
      → All (IsFresh (x ∷ seen)) vs
  IsFresh-behind x seen [] other h = tt
  IsFresh-behind x seen (v ∷ vs) other h =
      let apart = ne→eq-false x (id v) other.0 in
      (ground (arith, apart, h.0), IsFresh-behind x seen vs other.1 h.1)

  pub rules_from_complete :
      (seen : List String) (vs : List V)
      → All IsParsed vs
      → AreDistinct (map id vs)
      → All (IsFresh seen) vs
      → (rs : List R) × (rules_from go id parse seen vs ≡ ok rs)
  unfolding rules_from
  rules_from_complete seen [] good distinct fresh = ([], refl)
  rules_from_complete seen (v ∷ vs) good distinct fresh =
      let (named, (r, e)) = good.0 in
      let (rs, rest) =
        rules_from_complete (id v ∷ seen) vs good.1 distinct.1
          (IsFresh-behind (id v) seen vs distinct.0 fresh.1) in
      (r ∷ rs, rw (named, fresh.0, e, rest) refl)

pub known_action :
    (a : String)
    → not (a == "allow" || a == "count" || a == "block") ≡ false
    → not (is_allow (action_of a) || is_count (action_of a) || is_block (action_of a)) ≡ false
known_action a h = rw (action_of-constant_of a (ground (arith, h))) (ground (arith, h))

pub limit_action :
    (a : String)
    → not (a == "count" || a == "block") ≡ false
    → not (is_count (action_of a) || is_block (action_of a)) ≡ false
limit_action a h =
    rw (action_of-constant_of a (ground (arith, h))) (elim (Bool-cases (a == "count")) [
      | inl e ↦ rw ((eq_iff a "count").0 e) refl
      | inr e ↦ rw ((eq_iff a "block").0 (ground (arith, h, e))) refl
    ])
