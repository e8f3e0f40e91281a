-- ===== src/Sql/Validator/Columns.antt =====
-- The stage of query_validator.py that checks every column of the statement.
pub mod Soundness
use multi_tenant_data_chat_p.Shared.{
  Bool, true, false, not, ◌&&◌, ◌||◌, Option, none, some, List, [], ◌∷◌, ◌++◌, is_empty, append_new,
  for_each, is_some, Result, ok, err, ◌>>=◌, ◌>>◌, raise_if, or_raise, if◌then◌else◌,
}
use multi_tenant_data_chat_p.Shared.Text.{Text, text_eq, lower, qualify}
use multi_tenant_data_chat_p.Shared.Dict.{Dict, get}
use multi_tenant_data_chat_p.Permissions.{AllowedColumn, AllowedTable, AllowedSchema}
use multi_tenant_data_chat_p.Sql.Sqlglot.{
  Sqlglot, select, star, column, where_clause, having, join, agg_func,
}
use multi_tenant_data_chat_p.Sql.Validator.Errors.{
  Fault, invalid, key_error, star_not_allowed, no_readable_column, column_not_allowed,
  column_ambiguous, column_not_readable, column_not_filterable, column_not_aggregable,
  unknown_qualifier,
}
use multi_tenant_data_chat_p.Sql.Validator.Tables.{Referenced}

-- The tables among the referenced ones that have the column; `allowed_schema.tables[name]` may
-- raise a `KeyError`.
unfoldable pub column_matches :
    Text → List Text → Dict Text AllowedTable → Result Fault (List (AllowedTable × AllowedColumn))
column_matches column_name [] tables = ok []
column_matches column_name (q ∷ qs) tables = do
  allowed ← or_raise (get tables q) (key_error q)
  more ← column_matches column_name qs tables
  elim (get allowed.columns column_name) [ none ↦ ok more | some c ↦ ok ((allowed, c) ∷ more) ]

unfoldable pub only_column :
    Text → List (AllowedTable × AllowedColumn) → Result Fault (AllowedTable × AllowedColumn)
only_column column_name [] = err (invalid (column_not_allowed column_name))
only_column column_name (m ∷ []) = ok m
only_column column_name (m ∷ n ∷ more) = err (invalid (column_ambiguous column_name))

unfoldable pub resolve_unqualified_column :
    Text → List Text → AllowedSchema → Result Fault (AllowedTable × AllowedColumn)
unfolding column_matches only_column
resolve_unqualified_column column_name referenced allowed_schema =
    column_matches column_name referenced allowed_schema.tables >>= only_column column_name

unfoldable pub resolve_qualified_column :
    Text → Text → Dict Text AllowedTable → Result Fault (AllowedTable × AllowedColumn)
resolve_qualified_column qualifier column_name lookup = do
  allowed ← or_raise (get lookup qualifier) (invalid (unknown_qualifier qualifier column_name))
  c ← or_raise (get allowed.columns column_name) (invalid (column_not_allowed column_name))
  ok (allowed, c)

-- By the column's qualifier, `column.table`, which may be empty.
unfoldable pub resolve_column :
    Text → Text → Referenced → AllowedSchema → Result Fault (AllowedTable × AllowedColumn)
unfolding resolve_unqualified_column resolve_qualified_column
resolve_column [] column_name tables allowed_schema =
    resolve_unqualified_column column_name tables.referenced allowed_schema
resolve_column (c ∷ qualifier) column_name tables allowed_schema =
    resolve_qualified_column (lower (c ∷ qualifier)) column_name tables.lookup

-- `f"{schema}.{table}.{column}"`
unfoldable pub column_reference : AllowedTable → Text → Text
column_reference t column_name = qualify (qualify t.schema_name t.table_name) column_name

module _ {Statement Node Condition : Type 0} (g : Sqlglot Statement Node Condition) where
  unfoldable pub reject_star_selection : Statement → Result Fault (Unit {0})
  reject_star_selection st =
      raise_if (not (is_empty (g.find_all st (g.root st) star))) (invalid star_not_allowed)

  -- `isinstance(parent, (exp.Where, exp.Having, exp.Join))`
  abbrev pub is_filter_node : Statement → Node → Bool
  is_filter_node st n =
      g.is_instance st n where_clause || g.is_instance st n having || g.is_instance st n join

  -- The loop over the parents, up to the nearest `SELECT`.
  unfoldable pub in_filter : Statement → List Node → Bool
  in_filter st [] = false
  in_filter st (parent ∷ more) =
      is_filter_node st parent || not (g.is_instance st parent select) && in_filter st more

  unfoldable pub is_filter_column : Statement → Node → Bool
  unfolding in_filter
  is_filter_column st node = in_filter st (g.parents st node)

  unfoldable pub in_aggregate : Statement → List Node → Bool
  in_aggregate st [] = false
  in_aggregate st (parent ∷ more) =
      g.is_instance st parent agg_func
      || not (g.is_instance st parent select) && in_aggregate st more

  unfoldable pub is_aggregate_column : Statement → Node → Bool
  unfolding in_aggregate
  is_aggregate_column st node = in_aggregate st (g.parents st node)

  unfoldable pub validate_column_access : Statement → Node → AllowedColumn → Result Fault (Unit {0})
  validate_column_access st node allowed = do
    let column_name = lower (g.name st node)
    raise_if (not allowed.can_read) (invalid (column_not_readable column_name))
    raise_if (is_filter_column st node && not allowed.can_filter)
        (invalid (column_not_filterable column_name))
    raise_if (is_aggregate_column st node && not allowed.can_aggregate)
        (invalid (column_not_aggregable column_name))

  -- The body of the loop for a column that has a name.
  unfoldable pub check_column :
      Statement → Referenced → AllowedSchema → Node → List Text → Result Fault (List Text)
  check_column st tables allowed_schema node columns = do
    found ← resolve_column (g.table_of st node) (lower (g.name st node)) tables allowed_schema
    validate_column_access st node found.1
    ok (append_new (column_reference found.0 (lower (g.name st node))) columns)

  unfoldable pub visit_column :
      Statement → Referenced → AllowedSchema → Node → List Text → Result Fault (List Text)
  visit_column st tables allowed_schema node columns =
      if is_empty (lower (g.name st node))
      then ok columns
      else check_column st tables allowed_schema node columns

  unfoldable pub collect_referenced_columns :
      Statement → Referenced → AllowedSchema → Result Fault (List Text)
  unfolding reject_star_selection
  collect_referenced_columns st tables allowed_schema = do
    reject_star_selection st
    columns ← for_each (g.find_all st (g.root st) column) [] (visit_column st tables allowed_schema)
    raise_if (is_empty columns) (invalid no_readable_column)
    ok columns
