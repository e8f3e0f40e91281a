-- ===== src/Sql/RowFilter/Selects.antt =====
-- The filters that one SELECT of the statement must apply: those of its direct tables.
use multi_tenant_data_chat_p.Shared.{
  ℕ, Bool, false, Option, none, some, List, [], ◌∷◌, ◌++◌, is_empty, filter_by, is_some, Result, ok,
  err, ◌>>=◌, ◌==◌, if◌then◌else◌,
}
use multi_tenant_data_chat_p.Shared.Text.{Text, text, text_eq, lower, qualify}
use multi_tenant_data_chat_p.Shared.Dict.{Dict, get, values}
use multi_tenant_data_chat_p.Values.{Fields, str}
use multi_tenant_data_chat_p.Permissions.{AllowedTable, AllowedSchema}
use multi_tenant_data_chat_p.Sql.Sqlglot.{Sqlglot, cte, select, table}
use multi_tenant_data_chat_p.Sql.RowFilter.Rules.{
  Fault, filter_error, table_ambiguous, combine_expressions, build_filter_group_expression,
}

unfoldable pub at_most_one : Text → List AllowedTable → Result Fault (Option AllowedTable)
at_most_one table_name [] = ok none
at_most_one table_name (t ∷ []) = ok (some t)
at_most_one table_name (t ∷ u ∷ more) = err (filter_error (table_ambiguous table_name))

-- By the schema part of the table's name, which may be empty.
unfoldable pub find_allowed_table :
    Text → Text → Dict Text AllowedTable → Result Fault (Option AllowedTable)
unfolding at_most_one
find_allowed_table [] table_name tables =
    at_most_one table_name (filter_by (λ t. lower t.table_name == table_name) (values tables))
find_allowed_table (c ∷ db) table_name tables =
    ok (get tables (qualify (lower (c ∷ db)) table_name))

module _ {Statement Node Condition : Type 0} (g : Sqlglot Statement Node Condition)
    (st : Statement) where
  -- `parent_select is select_expression`
  abbrev is_direct : Node → Node → Bool
  is_direct select_expression node = elim (g.find_ancestor st node select) [
    | none ↦ false
    | some parent ↦ g.same_node parent select_expression
  ]

  unfoldable pub get_direct_tables : Node → List Node
  get_direct_tables select_expression =
      filter_by (is_direct select_expression) (g.find_all st select_expression table)

  -- `table.alias or table.name`
  unfoldable pub table_reference : Node → Text
  table_reference node = if is_empty (g.alias st node) then g.name st node else g.alias st node

  unfoldable pub resolve_select_table :
      AllowedSchema → Node → Result Fault (Option (AllowedTable × Text))
  resolve_select_table allowed_schema node =
      if is_some (g.find_ancestor st node cte)
      then ok none
      else (find_allowed_table (g.db st node) (lower (g.name st node)) allowed_schema.tables
          >>= λ found. ok (elim found [ none ↦ none | some t ↦ some (t, table_reference node) ]))

  module _ (allowed_schema : AllowedSchema) (tenant_id user_id : ℕ) where
    unfoldable pub table_filters : AllowedTable → Text → List Fields → Result Fault (List Condition)
    table_filters t reference [] = ok []
    table_filters t reference (group ∷ groups) = do
      e ← build_filter_group_expression g t reference tenant_id user_id group
      es ← table_filters t reference groups
      ok (e ∷ es)

    -- The filters of a direct table that was resolved.
    unfoldable pub filters_of : Option (AllowedTable × Text) → Result Fault (List Condition)
    filters_of none = ok []
    filters_of (some (t, reference)) = table_filters t reference t.row_filters

    unfoldable pub security_expressions : List Node → Result Fault (List Condition)
    security_expressions [] = ok []
    security_expressions (node ∷ nodes) = do
      resolved ← resolve_select_table allowed_schema node
      here ← filters_of resolved
      later ← security_expressions nodes
      ok (here ++ later)

    unfoldable pub combine_security : List Condition → Result Fault (Option Condition)
    combine_security [] = ok none
    combine_security (e ∷ es) =
        combine_expressions g (e ∷ es) (str (text "all")) >>= λ c. ok (some c)

    unfoldable pub build_select_security_expression : Node → Result Fault (Option Condition)
    build_select_security_expression select_expression =
        security_expressions (get_direct_tables select_expression) >>= combine_security
