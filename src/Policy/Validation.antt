-- ===== src/Policy/Validation.antt =====
-- The parsing and validation of conditions, in store.go.
pub mod Accepted
use bedem_waf.Common.{
  ℕ, zero, suc, String, Bool, true, false, not, ◌&&◌, ◌||◌, Option, none, some, is_some, List, [],
  ◌∷◌, ◌==◌, eqb, if◌then◌else◌,
}
use bedem_waf.Common.Int.{ℤ}
use bedem_waf.Common.Result.{Result, ok, err, ◌>>=◌, ◌>>◌, refuse}
use bedem_waf.Go.{Go}
use bedem_waf.Go.Maps.{has_key}
use bedem_waf.Config.{NameValue, Operators, Condition, condition, Conditions, nil, cons}
use bedem_waf.Policy.{IpSets}
use bedem_waf.Policy.Matching.{is_given, is_cons, canonical_header_name, on_some}

-- The errors of the package, one constructor for each message; `within` is `fmt.Errorf("…: %w")`.
pub data PolicyError : Type 0 where
  operator_count : ℕ → PolicyError
  header_contains_incomplete header_equals_incomplete query_parameter_incomplete : PolicyError
  unknown_ip_set : String → PolicyError
  bad_prefix : String → PolicyError
  ip_set_name_empty : PolicyError
  rule_id_required : PolicyError
  duplicate_rule_id rule_name_required key_header_required : String → PolicyError
  unsupported_action unsupported_key_type : String → String → PolicyError
  limit_not_positive window_not_positive : String → PolicyError
  invalid_status_code : String → ℤ → PolicyError
  bad_origin origin_incomplete : String → PolicyError
  hostname_taken : String → String → String → PolicyError
  within : String → PolicyError → PolicyError

abbrev pub Parsed {ℓ} : Type ℓ → Type ℓ
Parsed A = Result PolicyError A

unfoldable pub count_true : List Bool → ℕ
count_true [] = 0
count_true (true ∷ bs) = suc (count_true bs)
count_true (false ∷ bs) = count_true bs

-- The operators that are given, in the order of the checks.
abbrev pub operators_given : Operators → List Bool
operators_given o =
    is_given o.method_equals
    ∷ is_given o.path_equals
    ∷ is_given o.path_starts_with
    ∷ is_given o.host_equals
    ∷ is_some o.header_contains
    ∷ is_some o.header_equals
    ∷ is_some o.query_param_contains
    ∷ is_given o.client_ip_in_ip_set
    ∷ is_given o.client_ip_not_in_ip_set
    ∷ []

abbrev pub given : Conditions → Conditions → Operators → List Bool
given all any o = is_cons all ∷ is_cons any ∷ operators_given o

-- A pointer to a pair of which a part is empty.
unfoldable pub incomplete : NameValue → Bool
incomplete h = h.name == "" || h.value == ""

-- A named set that the policy does not have.
unfoldable pub misses : String → IpSets → Bool
unfolding has_key
misses name ip_sets = is_given name && not (has_key name ip_sets)

unfoldable pub validate_condition : IpSets → Conditions → Conditions → Operators → Parsed (Unit {0})
validate_condition ip_sets all any o = do
  refuse (not (eqb (count_true (given all any o)) 1))
      (operator_count (count_true (given all any o)))
  refuse (on_some incomplete o.header_contains) header_contains_incomplete
  refuse (on_some incomplete o.header_equals) header_equals_incomplete
  refuse (on_some incomplete o.query_param_contains) query_parameter_incomplete
  refuse (misses o.client_ip_in_ip_set ip_sets) (unknown_ip_set o.client_ip_in_ip_set)
  refuse (misses o.client_ip_not_in_ip_set ip_sets) (unknown_ip_set o.client_ip_not_in_ip_set)

unfoldable pub has_condition : Condition → Bool
has_condition (condition all any o) =
    is_cons all
    || is_cons any
    || is_given o.method_equals
    || is_given o.path_equals
    || is_given o.path_starts_with
    || is_given o.host_equals
    || is_some o.header_contains
    || is_some o.header_equals
    || is_some o.query_param_contains
    || is_given o.client_ip_in_ip_set
    || is_given o.client_ip_not_in_ip_set

module _ (go : Go) where
  abbrev pub canonical_pair : Option NameValue → Option NameValue
  canonical_pair none = none
  canonical_pair (some h) = some (record h { name = canonical_header_name go h.name })

  -- The operators of the parsed condition: header names in canonical form, all else copied.
  abbrev pub parsed_operators : Operators → Operators
  parsed_operators o = record o {
    header_contains = canonical_pair o.header_contains;
    header_equals = canonical_pair o.header_equals;
  }

module _ (go : Go) (ip_sets : IpSets) where
  unfoldable mutual
    unfolding validate_condition misses count_true incomplete

    pub parse_condition : Condition → Parsed Condition
    parse_condition (condition all any o) =
        validate_condition ip_sets all any o
        >> (parse_conditions all >>= λ all'.
            parse_conditions any >>= λ any'. ok (condition all' any' (parsed_operators go o)))

    -- The loops over All and Any.
    pub parse_conditions : Conditions → Parsed Conditions
    parse_conditions nil = ok nil
    parse_conditions (cons c cs) =
        parse_condition c >>= λ c'. parse_conditions cs >>= λ cs'. ok (cons c' cs')
