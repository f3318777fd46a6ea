-- ===== src/ControlApi/Events/Search/Safety.antt =====
-- What a search asks the database for.
use bedem_waf.Common.{
  String, Bool, true, false, ◌||◌, ◌≡◌, refl, ap, sym, ◌∙◌, arith, some, List, [], ◌∷◌, ◌++◌, ◌==◌,
  eqb, eq_refl, Bool-cases, inl, inr,
}
use bedem_waf.Common.Int.{ℤ, pos, ◌≤ℤ◌, ltb_ℤ}
use bedem_waf.Common.Result.{ok, ok_injective, refuse->>-eq-ok}
use bedem_waf.Go.{Go}
use bedem_waf.Go.Strings.{concat}
use bedem_waf.Go.Maps.{GoMap, lookup, lookup-insert}
use bedem_waf.Go.Text.{trim_space}
use bedem_waf.ControlApi.Events.{Time, SearchFilters}
use bedem_waf.ControlApi.Events.Search.{
  Builder, query_of, add_string_filter, add_time_filter, effective_limit, is_reversed, builder_of,
  behind_tenant, start_of, build_search_query, limit_out_of_range, from_behind_to, max_limit,
}

-- One more clause, or none.
unfoldable pub clause_unless : Bool → String → List String → List String
clause_unless true clause cs = cs
clause_unless false clause cs = cs ++ (clause ∷ [])

-- Which of the filters are not given.
pub record Shape : Type 0 where
  pub no_tenant : Bool
  pub no_app : Bool
  pub no_policy : Bool
  pub no_host : Bool
  pub no_action : Bool
  pub no_client : Bool
  pub no_rule : Bool
  pub no_from : Bool
  pub no_to : Bool

abbrev pub shape_of : Go → SearchFilters → Shape
shape_of go f = record {
  no_tenant = trim_space go f.tenant_id == "";
  no_app = trim_space go f.app_id == "";
  no_policy = trim_space go f.policy_id == "";
  no_host = trim_space go f.host == "";
  no_action = trim_space go f.action == "";
  no_client = trim_space go f.client_ip == "";
  no_rule = trim_space go f.matched_rule_id == "";
  no_from = eqb f.from 0;
  no_to = eqb f.to 0;
}

unfoldable pub clauses_for : Shape → List String
unfolding clause_unless
clauses_for s = clause_unless s.no_to "timestamp <= parseDateTime64BestEffort({to:String}, 3)" (
    clause_unless s.no_from "timestamp >= parseDateTime64BestEffort({from:String}, 3)" (
      clause_unless s.no_rule "matched_rule_id = {matched_rule_id:String}" (
        clause_unless s.no_client "client_ip = {client_ip:String}" (
          clause_unless s.no_action "action = {action:String}" (
            clause_unless s.no_host "host = {host:String}" (
              clause_unless s.no_policy "policy_id = {policy_id:String}" (
                clause_unless s.no_app "app_id = {app_id:String}"
                  (clause_unless s.no_tenant "tenant_id = {tenant_id:String}" ("1 = 1" ∷ [])))))))))

module _ (go : Go) (format_time : Time → String) where
  clauses-string :
      (field value clause : String) (b : Builder) {cs : List String}
      → concat (field ∷ " = {" ∷ field ∷ ":String}" ∷ []) ≡ clause
      → b.clauses ≡ cs
      → (add_string_filter go format_time field value b).clauses
        ≡ clause_unless (trim_space go value == "") clause cs
  unfolding add_string_filter clause_unless
  clauses-string field value clause b same h = elim (Bool-cases (trim_space go value == "")) [
    | inl e ↦ rw e h
    | inr e ↦ rw (e, same, h) refl
  ]

  clauses-time :
      (name clause : String) (time : Time) (b : Builder) {cs : List String}
      → b.clauses ≡ cs
      → (add_time_filter go format_time name clause time b).clauses
        ≡ clause_unless (eqb time 0) clause cs
  unfolding add_time_filter clause_unless
  clauses-time name clause time b h = elim (Bool-cases (eqb time 0)) [
    | inl e ↦ rw e h
    | inr e ↦ rw (e, h) refl
  ]

  clauses_of_shape :
      (f : SearchFilters) → (builder_of go format_time f).clauses ≡ clauses_for (shape_of go f)
  unfolding builder_of behind_tenant start_of clauses_for concat
  clauses_of_shape f = clauses-time "to" _ f.to _ (
      clauses-time "from" _ f.from _ (
        clauses-string "matched_rule_id" f.matched_rule_id _ _ refl (
          clauses-string "client_ip" f.client_ip _ _ refl (
            clauses-string "action" f.action _ _ refl (
              clauses-string "host" f.host _ _ refl (
                clauses-string "policy_id" f.policy_id _ _ refl (
                  clauses-string "app_id" f.app_id _ _ refl
                    (clauses-string "tenant_id" f.tenant_id _ _ refl refl))))))))

  -- A filter leaves the parameters of other names alone.
  params-string_other :
      (field value key : String) (b : Builder)
      → (field == key) ≡ false
      → lookup key (add_string_filter go format_time field value b).params ≡ lookup key b.params
  unfolding add_string_filter
  params-string_other field value key b other = elim (Bool-cases (trim_space go value == "")) [
    | inl e ↦ rw e refl
    | inr e ↦ rw (e, lookup-insert field key (trim_space go value) b.params, other) refl
  ]

  params-time_other :
      (name clause key : String) (time : Time) (b : Builder)
      → (name == key) ≡ false
      → lookup key (add_time_filter go format_time name clause time b).params ≡ lookup key b.params
  unfolding add_time_filter
  params-time_other name clause key time b other = elim (Bool-cases (eqb time 0)) [
    | inl e ↦ rw e refl
    | inr e ↦ rw (e, lookup-insert name key (format_time time) b.params, other) refl
  ]

  params-string :
      (field value : String) (b : Builder)
      → (trim_space go value == "") ≡ false
      → lookup field (add_string_filter go format_time field value b).params
        ≡ some (trim_space go value)
  unfolding add_string_filter
  params-string field value b given =
      rw (given, lookup-insert field field (trim_space go value) b.params, eq_refl field) refl

  -- The parameters of the seven text filters and the two times leave the limit alone, and those
  -- behind the tenant leave the tenant alone.
  params_kept :
      (f : SearchFilters) (key : String) (b : Builder)
      → ("app_id" == key) ≡ false
      → ("policy_id" == key) ≡ false
      → ("host" == key) ≡ false
      → ("action" == key) ≡ false
      → ("client_ip" == key) ≡ false
      → ("matched_rule_id" == key) ≡ false
      → ("from" == key) ≡ false
      → ("to" == key) ≡ false
      → lookup key (behind_tenant go format_time f b).params ≡ lookup key b.params
  unfolding behind_tenant
  params_kept f key b e₁ e₂ e₃ e₄ e₅ e₆ e₇ e₈ =
      params-time_other "to" _ key f.to _ e₈
      ∙ params-time_other "from" _ key f.from _ e₇
      ∙ params-string_other "matched_rule_id" f.matched_rule_id key _ e₆
      ∙ params-string_other "client_ip" f.client_ip key _ e₅
      ∙ params-string_other "action" f.action key _ e₄
      ∙ params-string_other "host" f.host key _ e₃
      ∙ params-string_other "policy_id" f.policy_id key _ e₂
      ∙ params-string_other "app_id" f.app_id key b e₁

  tenant_asked :
      (f : SearchFilters)
      → (trim_space go f.tenant_id == "") ≡ false
      → lookup "tenant_id" (builder_of go format_time f).params ≡ some (trim_space go f.tenant_id)
  unfolding builder_of
  tenant_asked f given =
      params_kept f "tenant_id" _ refl refl refl refl refl refl refl refl
      ∙ params-string "tenant_id" f.tenant_id _ given

  limit_asked :
      (f : SearchFilters)
      → lookup "limit" (builder_of go format_time f).params ≡ some (go.itoa (effective_limit f))
  unfolding builder_of start_of lookup
  limit_asked f =
      params_kept f "limit" _ refl refl refl refl refl refl refl refl
      ∙ params-string_other "tenant_id" f.tenant_id "limit" _ refl

  in_range :
      (n : ℤ) → ltb_ℤ n (pos 1) || ltb_ℤ max_limit n ≡ false → (pos 1 ≤ℤ n) × (n ≤ℤ max_limit)
  in_range n h = (ground arith, ground arith)

  -- A query that BuildSearchQuery returns for a tenant that is not blank: its text is made of fixed
  -- clauses alone, chosen by which filters are given, so that no filter's value is part of it; its
  -- limit is between 1 and 1000, and is the parameter `limit`; and its parameter `tenant_id` is the
  -- tenant without the space around it.
  pub build_search_query_sound :
      (f : SearchFilters) (query : List String) (params : GoMap String)
      → build_search_query go format_time f ≡ ok (query, params)
      → (trim_space go f.tenant_id == "") ≡ false
      → (query ≡ query_of (clauses_for (shape_of go f)))
        × (pos 1 ≤ℤ effective_limit f)
        × (effective_limit f ≤ℤ max_limit)
        × (lookup "limit" params ≡ some (go.itoa (effective_limit f)))
        × (lookup "tenant_id" params ≡ some (trim_space go f.tenant_id))
  unfolding build_search_query
  build_search_query_sound f query params h given =
      let (range, h₁) =
        refuse->>-eq-ok (ltb_ℤ (effective_limit f) (pos 1) || ltb_ℤ max_limit (effective_limit f))
          limit_out_of_range _ h in
      let (ordered, h₂) = refuse->>-eq-ok (is_reversed f.from f.to) from_behind_to _ h₁ in
      let answer = ok_injective h₂ in
      let asked = ap (λ a. a.1) answer in
      let (least, most) = in_range (effective_limit f) range in
      (
        sym (ap (λ a. a.0) answer) ∙ ap query_of (clauses_of_shape f),
        least,
        most,
        rw (← asked) (limit_asked f),
        rw (← asked) (tenant_asked f given),
      )
