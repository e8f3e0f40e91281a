-- ===== src/Sql/RowFilter/CommonTables.antt =====
-- Tables inside common table expressions: row_filter_service.py applies no filter to them.
use multi_tenant_data_chat_p.Shared.{
  ℕ, ◌≡◌, refl, ◌⊎◌, inl, inr, true, false, none, List, [], ◌∷◌, In, here, there, is_empty, is_some,
  for_each, Result, ok, Bool-cases,
}
use multi_tenant_data_chat_p.Shared.Text.{Text, lower, strip}
use multi_tenant_data_chat_p.Permissions.{AllowedSchema}
use multi_tenant_data_chat_p.Sql.Sqlglot.{Sqlglot, cte}
use multi_tenant_data_chat_p.Sql.RowFilter.{
  catch_unparsed, unique_selects, secure_select, inject_mandatory_row_filters,
}
use multi_tenant_data_chat_p.Sql.RowFilter.Selects.{
  find_allowed_table, get_direct_tables, resolve_select_table, filters_of, security_expressions,
  combine_security, build_select_security_expression,
}

for_each-eq_self :
    {E A S : Type 0} (body : A → S → Result E S) (xs : List A) (s : S)
    → ((x : A) → In x xs → body x s ≡ ok s)
    → for_each xs s body ≡ ok s
unfolding for_each
for_each-eq_self body [] s h = refl
for_each-eq_self body (x ∷ xs) s h =
    rw (h x (here refl)) (for_each-eq_self body xs s (λ y i. h y (there i)))

module _ {Statement Node Condition : Type 0} (g : Sqlglot Statement Node Condition)
    (allowed_schema : AllowedSchema) (tenant_id user_id : ℕ) where
  -- The table stands inside a common table expression, or its name is that of no allowed table,
  -- as the name of a common table expression mostly is.
  abbrev pub IsExempt : Statement → Node → Type 0
  IsExempt st node =
      (is_some (g.find_ancestor st node cte) ≡ true)
      ⊎ (find_allowed_table (g.db st node) (lower (g.name st node)) allowed_schema.tables ≡ ok none)

  resolve_select_table-eq-none :
      (st : Statement) (node : Node)
      → IsExempt st node
      → resolve_select_table g st allowed_schema node ≡ ok none
  unfolding resolve_select_table
  resolve_select_table-eq-none st node (inl inside) = rw inside refl
  resolve_select_table-eq-none st node (inr unknown) =
      elim (Bool-cases (is_some (g.find_ancestor st node cte))) [
        | inl inside ↦ rw inside refl
        | inr outside ↦ rw outside (rw unknown refl)
      ]

  security_expressions-eq-nil :
      (st : Statement) (nodes : List Node)
      → ((node : Node) → In node nodes → IsExempt st node)
      → security_expressions g st allowed_schema tenant_id user_id nodes ≡ ok []
  unfolding security_expressions filters_of
  security_expressions-eq-nil st [] h = refl
  security_expressions-eq-nil st (x ∷ xs) h =
      rw (resolve_select_table-eq-none st x (h x (here refl)))
        (rw (security_expressions-eq-nil st xs (λ y i. h y (there i))) refl)

  secure_select-eq_self :
      (st : Statement) (node : Node)
      → ((x : Node) → In x (get_direct_tables g st node) → IsExempt st x)
      → secure_select g allowed_schema tenant_id user_id node st ≡ ok st
  unfolding secure_select build_select_security_expression combine_security
  secure_select-eq_self st node h =
      rw (security_expressions-eq-nil st (get_direct_tables g st node) h) refl

  -- If every direct table of every SELECT stands inside a common table expression or bears a name
  -- that is no allowed table's, the statement is printed as it was read, whatever row filters the
  -- allowed tables carry: `WITH x AS (SELECT a FROM t) SELECT a FROM x` reads all of `t`.
  pub inject-common_tables :
      (sql dialect : Text) (st : Statement)
      → is_empty (strip sql) ≡ false
      → is_empty sql ≡ false
      → g.parse_one sql dialect ≡ ok st
      → ((node : Node)
          → In node (unique_selects g st)
          → (x : Node) → In x (get_direct_tables g st node)
          → IsExempt st x)
      → inject_mandatory_row_filters g allowed_schema tenant_id user_id sql dialect
        ≡ ok (g.to_sql st dialect)
  unfolding inject_mandatory_row_filters catch_unparsed
  inject-common_tables sql dialect st blank empty parsed h =
      rw (empty, blank, parsed)
        (rw
          (for_each-eq_self (secure_select g allowed_schema tenant_id user_id) (unique_selects g st)
            st (λ node i. secure_select-eq_self st node (h node i)))
          refl)
