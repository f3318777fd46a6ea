-- ===== src/Policy/Matching.antt =====
-- Condition.Match and its helpers, of store.go.
pub mod Meaning
use bedem_waf.Common.{
  String, Bool, true, false, not, ◌&&◌, ◌||◌, Option, none, some, List, [], ◌∷◌, ◌==◌, any, is_some,
  if◌then◌else◌,
}
use bedem_waf.Go.{Go}
use bedem_waf.Go.Text.{trim_space}
use bedem_waf.Go.Strings.{contains, has_prefix}
use bedem_waf.Go.Maps.{GoMap, values_of}
use bedem_waf.Go.Netip.{Addr, Prefix, prefix_contains}
use bedem_waf.Config.{NameValue, Operators, Condition, condition, Conditions, nil, cons}
use bedem_waf.Policy.{IpSets, RequestContext}
use bedem_waf.Policy.Host.{normalize_host}

-- `len(c.All) > 0`
abbrev pub is_cons : Conditions → Bool
is_cons nil = false
is_cons (cons c cs) = true

-- `s != ""`
abbrev pub is_given : String → Bool
is_given s = not (s == "")

-- A test of the value behind a pointer.
abbrev pub on_some {ℓ} : {A : Type ℓ} → (A → Bool) → Option A → Bool
on_some f none = false
on_some f (some a) = f a

-- ipInSet, and containsAddr of proxy/gateway.go
unfoldable pub ip_in_set : Addr → List Prefix → Bool
unfolding prefix_contains
ip_in_set ip prefixes = any (λ p. prefix_contains p ip) prefixes

-- `ipSets[name]`, nil for a name that is missing
unfoldable pub set_of : String → GoMap (List Prefix) → List Prefix
set_of name [] = []
set_of name ((j, v) ∷ m) = if j == name then v else set_of name m

module _ (go : Go) where
  unfoldable pub canonical_header_name : String → String
  unfolding trim_space
  canonical_header_name name = go.canonical_header_key (trim_space go name)

  unfoldable pub header_contains : GoMap (List String) → NameValue → Bool
  unfolding canonical_header_name values_of contains
  header_contains headers h =
      any (λ got. contains got h.value) (values_of (canonical_header_name h.name) headers)

  unfoldable pub header_equals : GoMap (List String) → NameValue → Bool
  unfolding canonical_header_name values_of
  header_equals headers h =
      any (λ got. got == h.value) (values_of (canonical_header_name h.name) headers)

module _ (go : Go) (ctx : RequestContext) (ip_sets : IpSets) where
  abbrev pub query_param_contains : NameValue → Bool
  unfolding values_of contains
  query_param_contains q = any (λ value. contains value q.value) (values_of q.name ctx.query)

  -- The part of Match behind All and Any.
  unfoldable pub match_operators : Operators → Bool
  unfolding has_prefix normalize_host header_contains header_equals ip_in_set set_of values_of
      contains
  match_operators o =
      if is_given o.method_equals
      then go.equal_fold ctx.method o.method_equals
      else if is_given o.path_equals
      then ctx.path == o.path_equals
      else if is_given o.path_starts_with
      then has_prefix ctx.path o.path_starts_with
      else if is_given o.host_equals
      then normalize_host go ctx.host == normalize_host go o.host_equals
      else if is_some o.header_contains
      then on_some (header_contains go ctx.headers) o.header_contains
      else if is_some o.header_equals
      then on_some (header_equals go ctx.headers) o.header_equals
      else if is_some o.query_param_contains
      then on_some query_param_contains o.query_param_contains
      else if is_given o.client_ip_in_ip_set
      then ip_in_set ctx.client_ip (set_of o.client_ip_in_ip_set ip_sets)
      else if is_given o.client_ip_not_in_ip_set
      then not (ip_in_set ctx.client_ip (set_of o.client_ip_not_in_ip_set ip_sets))
      else false

  unfoldable mutual
    unfolding match_operators

    pub match : Condition → Bool
    match (condition all any operators) =
        if is_cons all
        then match_all all
        else if is_cons any
        then match_any any
        else match_operators operators

    pub match_all : Conditions → Bool
    match_all nil = true
    match_all (cons c cs) = match c && match_all cs

    pub match_any : Conditions → Bool
    match_any nil = false
    match_any (cons c cs) = match c || match_any cs
