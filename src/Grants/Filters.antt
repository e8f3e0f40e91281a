-- ===== src/Grants/Filters.antt =====
-- The row filters that the schema of a permission lets through, when a query of the grantee is
-- built: row_filter_service.py on the document that `model_dump` has made.
use multi_tenant_data_chat_p.Shared.{
  ℕ, ◌≡◌, refl, sym, ap, ◌∙◌, ◌⊎◌, inl, inr, Bool, true, false, Option, none, some, ok, err, ◌>>=◌,
  or_raise, if◌then◌else◌,
}
use multi_tenant_data_chat_p.Shared.Text.{Text, text_eq}
use multi_tenant_data_chat_p.Shared.Dict.{values}
use multi_tenant_data_chat_p.Values.{Value, str, list, Values, nil, cons, field_value, str_uuid}
use multi_tenant_data_chat_p.Permissions.{AllowedColumn, AllowedTable}
use multi_tenant_data_chat_p.Sql.Sqlglot.{Sqlglot}
use multi_tenant_data_chat_p.Sql.RowFilter.Rules.{
  Fault, filter_error, column_unavailable, list_required, column_with_id, resolve_filter_column,
  resolve_filter_value, is_among, is_text, is_supported_operator, membership,
  build_comparison_expression, build_rule_expression,
}
use multi_tenant_data_chat_p.Grants.Schemas.{
  RowFilterOperator, equals, not_equals, greater_than, greater_than_or_equal, less_than,
  less_than_or_equal, in_, not_in, RowFilterValueSource, literal, tenant_id_source, user_id_source,
  RowFilterRule, operator_value, is_membership, dump_rule,
}

-- The value that a rule compares with.
abbrev pub resolved : ℕ → ℕ → RowFilterValueSource → Value → Value
resolved tenant_id user_id literal value = value
resolved tenant_id user_id tenant_id_source value = str (str_uuid tenant_id)
resolved tenant_id user_id user_id_source value = str (str_uuid user_id)

unfoldable pub rule_of : ℕ → RowFilterOperator → RowFilterValueSource → Value → RowFilterRule
rule_of n operator source value = record {
  column_id = n;
  operator = operator;
  value_source = source;
  value = value;
}

resolve_filter_value-dump_rule :
    (tenant_id user_id n : ℕ) (operator : RowFilterOperator) (source : RowFilterValueSource)
    (value : Value)
    → resolve_filter_value tenant_id user_id (dump_rule (rule_of n operator source value))
      ≡ ok (resolved tenant_id user_id source value)
unfolding resolve_filter_value dump_rule rule_of field_value text_eq is_among is_text
resolve_filter_value-dump_rule tenant_id user_id n operator literal value = refl
resolve_filter_value-dump_rule tenant_id user_id n operator tenant_id_source value = refl
resolve_filter_value-dump_rule tenant_id user_id n operator user_id_source value = refl

module _ {Statement Node Condition : Type 0} (g : Sqlglot Statement Node Condition)
    (allowed_table : AllowedTable) (table_reference : Text) (tenant_id user_id : ℕ) where
  build_comparison_expression_lem :
      (column : Condition) (operator : RowFilterOperator) (value : Value)
      → (c : Condition) × (build_comparison_expression g column (operator_value operator) value ≡ (
          if is_membership operator
          then membership g column (operator_value operator) value
          else ok c))
  unfolding build_comparison_expression operator_value is_supported_operator text_eq
  build_comparison_expression_lem column equals value = (_, refl)
  build_comparison_expression_lem column not_equals value = (_, refl)
  build_comparison_expression_lem column greater_than value = (_, refl)
  build_comparison_expression_lem column greater_than_or_equal value = (_, refl)
  build_comparison_expression_lem column less_than value = (_, refl)
  build_comparison_expression_lem column less_than_or_equal value = (_, refl)
  build_comparison_expression_lem column in_ value = (column, refl)
  build_comparison_expression_lem column not_in value = (column, refl)

  build_rule_expression-dump_rule :
      (n : ℕ) (operator : RowFilterOperator) (source : RowFilterValueSource) (value : Value)
      → build_rule_expression g allowed_table table_reference tenant_id user_id
          (dump_rule (rule_of n operator source value))
        ≡ (resolve_filter_column allowed_table (str_uuid n) >>= λ c.
            build_comparison_expression g
              (g.column_expression c.name table_reference)
              (operator_value operator)
              (resolved tenant_id user_id source value))
  unfolding build_rule_expression
  build_rule_expression-dump_rule n operator source value =
      rw (resolve_filter_value-dump_rule tenant_id user_id n operator source value)
        (unfold dump_rule rule_of field_value text_eq in refl)

  -- A membership test of a list that is not empty.
  membership_ok :
      (column : Condition) (operator : Text) (v : Value) (vs : Values)
      → (c : Condition) × (membership g column operator (list (cons v vs)) ≡ ok c)
  unfolding membership
  membership_ok column operator v vs = (_, refl)

  membership-eq-err :
      (column : Condition) (operator : Text) (value : Value) {e : Fault}
      → membership g column operator value ≡ err e
      → e ≡ filter_error list_required
  unfolding membership
  membership-eq-err column operator (list (cons v vs)) h = cc
  membership-eq-err column operator (list nil) h = cc
  membership-eq-err column operator _ h = cc

  -- The two errors that a stored filter can still raise.
  abbrev pub IsKnown : Fault → Type 0
  IsKnown e = (e ≡ filter_error column_unavailable) ⊎ (e ≡ filter_error list_required)

  -- The rule's column is one that the user may use, and a membership test has a literal list that is
  -- not empty.
  pub record IsUsable (rule : RowFilterRule) : Type 0 where
    pub column : AllowedColumn
    pub found :
        column_with_id (values allowed_table.columns) (str_uuid rule.column_id) ≡ some column
    pub listed :
        is_membership rule.operator ≡ true
        → (v : Value) × (vs : Values) × (rule.value_source ≡ literal)
          × (rule.value ≡ list (cons v vs))

  comparison-eq-err :
      (column : Condition) (operator : RowFilterOperator) (value : Value) {e : Fault}
      → build_comparison_expression g column (operator_value operator) value ≡ err e
      → IsKnown e
  comparison-eq-err column operator value {e} h =
      let (c, q) = build_comparison_expression_lem column operator value in
      go (is_membership operator) c (sym q ∙ h)
    where
      go :
          (b : Bool) (c : Condition)
          → (if b then membership g column (operator_value operator) value else ok c) ≡ err e
          → IsKnown e
      go true c k = inr (membership-eq-err column (operator_value operator) value k)
      go false c k = cc

  pub rule-eq-err :
      (n : ℕ) (operator : RowFilterOperator) (source : RowFilterValueSource) (value : Value)
      {e : Fault}
      → build_rule_expression g allowed_table table_reference tenant_id user_id
          (dump_rule (rule_of n operator source value))
        ≡ err e
      → IsKnown e
  unfolding resolve_filter_column
  rule-eq-err n operator source value {e} h =
      go (column_with_id (values allowed_table.columns) (str_uuid n))
        (sym (build_rule_expression-dump_rule n operator source value) ∙ h)
    where
      go :
          (o : Option AllowedColumn)
          → (or_raise o (filter_error column_unavailable) >>= λ c.
              build_comparison_expression g
                (g.column_expression c.name table_reference)
                (operator_value operator)
                (resolved tenant_id user_id source value))
            ≡ err e
          → IsKnown e
      go none k = inl (cc)
      go (some c) k =
          comparison-eq-err (g.column_expression c.name table_reference) operator
            (resolved tenant_id user_id source value) k

  comparison_builds :
      (column : Condition) (operator : RowFilterOperator) (value : Value)
      → (is_membership operator ≡ true → (v : Value) × (vs : Values) × (value ≡ list (cons v vs)))
      → (c : Condition) × (build_comparison_expression g column (operator_value operator) value
          ≡ ok c)
  comparison_builds column operator value listed =
      let (c, q) = build_comparison_expression_lem column operator value in
      go (is_membership operator) refl c q
    where
      go :
          (b : Bool)
          → is_membership operator ≡ b
          → (c : Condition)
          → build_comparison_expression g column (operator_value operator) value
            ≡ (if b then membership g column (operator_value operator) value else ok c)
          → (d : Condition) × (build_comparison_expression g column (operator_value operator) value
              ≡ ok d)
      go true e c q =
          let (v, vs, same) = listed e in
          let (d, r) = membership_ok column (operator_value operator) v vs in
          (d, q ∙ ap (membership g column (operator_value operator)) same ∙ r)
      go false e c q = (c, q)

  pub rule_builds :
      (rule : RowFilterRule)
      → IsUsable rule
      → (c : Condition) × (build_rule_expression g allowed_table table_reference tenant_id user_id
            (dump_rule rule)
          ≡ ok c)
  unfolding resolve_filter_column rule_of
  rule_builds rule u =
      let column = g.column_expression u.column.name table_reference in
      let value = resolved tenant_id user_id rule.value_source rule.value in
      let (c, q) = comparison_builds column rule.operator value listed_value in
      (
        c,
        build_rule_expression-dump_rule rule.column_id rule.operator rule.value_source rule.value
            ∙ ap
                (λ (o : Option AllowedColumn). or_raise o (filter_error column_unavailable) >>= λ c.
                  build_comparison_expression g (g.column_expression c.name table_reference)
                    (operator_value rule.operator) value)
                u.found
            ∙ q,
      )
    where
      listed_value :
          is_membership rule.operator ≡ true
          → (v : Value) × (vs : Values) × (resolved tenant_id user_id rule.value_source rule.value
              ≡ list (cons v vs))
      listed_value m =
          let (v, vs, from_literal, is_value) = u.listed m in
          (v, vs, ap (λ s. resolved tenant_id user_id s rule.value) from_literal ∙ is_value)
