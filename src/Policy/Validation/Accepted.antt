-- ===== src/Policy/Validation/Accepted.antt =====
-- What parseCondition accepts, and what it returns.
use bedem_waf.Common.{ℕ, ap, sym, ◌∙◌, false, ◌≡◌, refl, ◌↔◌, arith, eqb, not}
use bedem_waf.Common.Result.{ok, >>=-eq-ok, >>-eq-ok, refuse->>-eq-ok, refuse-eq-ok}
use bedem_waf.Go.{Go}
use bedem_waf.Config.{Operators, Condition, condition, Conditions, nil, cons}
use bedem_waf.Policy.{IpSets}
use bedem_waf.Policy.Matching.{on_some}
use bedem_waf.Policy.Validation.{
  validate_condition, parse_condition, parse_conditions, parsed_operators, count_true, given,
  incomplete, misses,
}

module _ (ip_sets : IpSets) where
  -- One node: exactly one operator, its pair is complete and its set is known.
  pub record IsAcceptedNode (all any : Conditions) (o : Operators) : Type 0 where
    pub single : count_true (given all any o) ≡ 1
    pub header_contains : on_some incomplete o.header_contains ≡ false
    pub header_equals : on_some incomplete o.header_equals ≡ false
    pub query_param : on_some incomplete o.query_param_contains ≡ false
    pub known : misses o.client_ip_in_ip_set ip_sets ≡ false
    pub known_not : misses o.client_ip_not_in_ip_set ip_sets ≡ false

  abbrev mutual
    pub IsAccepted : Condition → Type 0
    IsAccepted (condition all any o) = IsAcceptedNode all any o × AreAccepted all × AreAccepted any

    pub AreAccepted : Conditions → Type 0
    AreAccepted nil = Unit
    AreAccepted (cons c cs) = IsAccepted c × AreAccepted cs

  eqb_one : (n : ℕ) → not (eqb n 1) ≡ false → n ≡ 1
  eqb_one n h = ground arith

  validate_condition-IsAcceptedNode :
      (all any : Conditions) (o : Operators)
      → validate_condition ip_sets all any o ≡ ok tt
      → IsAcceptedNode all any o
  unfolding validate_condition
  validate_condition-IsAcceptedNode all any o h =
      let (one, h₁) = refuse->>-eq-ok _ _ _ h in
      let (contains, h₂) = refuse->>-eq-ok _ _ _ h₁ in
      let (equals, h₃) = refuse->>-eq-ok _ _ _ h₂ in
      let (query, h₄) = refuse->>-eq-ok _ _ _ h₃ in
      let (known, h₅) = refuse->>-eq-ok _ _ _ h₄ in
      record {
        single = eqb_one _ one;
        header_contains = contains;
        header_equals = equals;
        query_param = query;
        known = known;
        known_not = refuse-eq-ok _ _ h₅;
      }

  validate_condition_of_node :
      (all any : Conditions) (o : Operators)
      → IsAcceptedNode all any o
      → validate_condition ip_sets all any o ≡ ok tt
  unfolding validate_condition
  validate_condition_of_node all any o h =
      rw (h.single, h.header_contains, h.header_equals, h.query_param, h.known, h.known_not)

-- The condition with the header names of every node in canonical form.
module _ (go : Go) where
  abbrev mutual
    pub canonical : Condition → Condition
    canonical (condition all any o) =
        condition (canonical_all all) (canonical_all any) (parsed_operators go o)

    pub canonical_all : Conditions → Conditions
    canonical_all nil = nil
    canonical_all (cons c cs) = cons (canonical c) (canonical_all cs)

module _ (go : Go) (ip_sets : IpSets) where
  mutual
    unfolding parse_condition

    parse_condition_sound :
        (c : Condition) (c' : Condition)
        → parse_condition go ip_sets c ≡ ok c'
        → IsAccepted ip_sets c × (c' ≡ canonical go c)
    parse_condition_sound (condition all any o) c' h =
        let (valid, h₁) = >>-eq-ok (validate_condition ip_sets all any o) _ h in
        let (all', e₁, h₂) = >>=-eq-ok (parse_conditions go ip_sets all) _ h₁ in
        let (any', e₂, h₃) = >>=-eq-ok (parse_conditions go ip_sets any) _ h₂ in
        let (good₁, same₁) = parse_conditions_sound all all' e₁ in
        let (good₂, same₂) = parse_conditions_sound any any' e₂ in
        ((validate_condition-IsAcceptedNode ip_sets all any o valid, good₁, good₂), cc)

    parse_conditions_sound :
        (cs : Conditions) (cs' : Conditions)
        → parse_conditions go ip_sets cs ≡ ok cs'
        → AreAccepted ip_sets cs × (cs' ≡ canonical_all go cs)
    parse_conditions_sound nil cs' h = (tt, cc)
    parse_conditions_sound (cons c cs) cs' h =
        let (d, e₁, h₁) = >>=-eq-ok (parse_condition go ip_sets c) _ h in
        let (ds, e₂, h₂) = >>=-eq-ok (parse_conditions go ip_sets cs) _ h₁ in
        let (good₁, same₁) = parse_condition_sound c d e₁ in
        let (good₂, same₂) = parse_conditions_sound cs ds e₂ in ((good₁, good₂), cc)

  mutual
    unfolding parse_condition

    parse_condition_complete :
        (c : Condition) → IsAccepted ip_sets c → parse_condition go ip_sets c ≡ ok (canonical go c)
    parse_condition_complete (condition all any o) h = rw (
      validate_condition_of_node ip_sets all any o h.0,
      parse_conditions_complete all h.1,
      parse_conditions_complete any h.2,
    )

    parse_conditions_complete :
        (cs : Conditions)
        → AreAccepted ip_sets cs
        → parse_conditions go ip_sets cs ≡ ok (canonical_all go cs)
    parse_conditions_complete nil h = refl
    parse_conditions_complete (cons c cs) h =
        rw (parse_condition_complete c h.0, parse_conditions_complete cs h.1)

  -- parseCondition returns a condition exactly when every node, at any depth, has one operator, a
  -- complete pair where it has one, and a set that the policy knows; the result is then the same
  -- condition with canonical header names.
  pub parse_condition_iff :
      (c c' : Condition)
      → (parse_condition go ip_sets c ≡ ok c') ↔ (IsAccepted ip_sets c × (c' ≡ canonical go c))
  parse_condition_iff c c' =
      (parse_condition_sound c c', λ h. parse_condition_complete c h.0 ∙ ap ok (sym h.1))
