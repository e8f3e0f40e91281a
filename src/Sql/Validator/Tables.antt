-- ===== src/Sql/Validator/Tables.antt =====
-- The stage of query_validator.py that resolves every table of the statement in the allowed
-- schema, and keeps the names under which columns may refer to it.
pub mod Soundness
pub mod Names
use multi_tenant_data_chat_p.Shared.{
  Bool, Option, none, some, List, [], ◌∷◌, is_empty, contains, append_new, filter_by, for_each,
  Result, ok, err, ◌>>=◌, ◌>>◌, raise_if, or_raise, ◌==◌, if◌then◌else◌,
}
use multi_tenant_data_chat_p.Shared.Text.{Text, text, text_eq, lower, qualify}
use multi_tenant_data_chat_p.Shared.Dict.{Dict, get, put}
use multi_tenant_data_chat_p.Permissions.{AllowedTable, AllowedSchema}
use multi_tenant_data_chat_p.Sql.Sqlglot.{Sqlglot, cte, table}
use multi_tenant_data_chat_p.Sql.Validator.Errors.{
  Fault, invalid, system_schema, no_allowed_table, table_not_allowed, table_ambiguous,
}

-- `SYSTEM_SCHEMAS`
abbrev pub system_schemas : List Text
system_schemas = text "information_schema" ∷ text "pg_catalog" ∷ text "pg_toast" ∷ []

unfoldable pub is_system_schema : Text → Bool
unfolding text_eq
is_system_schema schema_name = contains system_schemas schema_name

-- The allowed tables of an unqualified name.
unfoldable pub tables_named : Text → Dict Text AllowedTable → List (Text × AllowedTable)
tables_named table_name tables = filter_by (λ (_, t). lower t.table_name == table_name) tables

-- The one match of an unqualified name.
unfoldable pub only_match : Text → List (Text × AllowedTable) → Result Fault (Text × AllowedTable)
only_match table_name [] = err (invalid (table_not_allowed table_name))
only_match table_name (m ∷ []) = ok m
only_match table_name (m ∷ n ∷ more) = err (invalid (table_ambiguous table_name))

-- The two ways of a name that is no CTE: with a schema, and without.
unfoldable pub resolve_name :
    Text → Text → Dict Text AllowedTable → Result Fault (Text × AllowedTable)
unfolding only_match
resolve_name [] table_name tables = only_match table_name (tables_named table_name tables)
resolve_name (c ∷ db) table_name tables = do
  let schema_name = lower (c ∷ db)
  raise_if (is_system_schema schema_name) (invalid system_schema)
  let qualified_name = qualify schema_name table_name
  allowed ← or_raise (get tables qualified_name) (invalid (table_not_allowed qualified_name))
  ok (qualified_name, allowed)

-- The referenced tables in the order of their first use, and the tables that a column's
-- qualifier may name.
pub record Referenced : Type 0 where
  pub referenced : List Text
  pub lookup : Dict Text AllowedTable

unfoldable pub add_alias : Text → AllowedTable → Dict Text AllowedTable → Dict Text AllowedTable
add_alias alias allowed d = if is_empty alias then d else put d (lower alias) allowed

-- The body of the loop for a table that was resolved.
unfoldable pub add_table : Text → Text × AllowedTable → Referenced → Referenced
unfolding add_alias
add_table alias (qualified_name, allowed) r = record {
  referenced = append_new qualified_name r.referenced;
  lookup =
      add_alias alias allowed
        (put (put r.lookup (lower qualified_name) allowed) (lower allowed.table_name) allowed);
}

abbrev pub no_tables : Referenced
no_tables = record { referenced = []; lookup = [] }

module _ {Statement Node Condition : Type 0} (g : Sqlglot Statement Node Condition) where
  -- The lower-case names of the common table expressions that have one.
  cte_names_of : Statement → List Node → List Text
  cte_names_of st [] = []
  cte_names_of st (n ∷ ns) =
      let rest = cte_names_of st ns in
      if is_empty (g.alias_or_name st n) then rest else lower (g.alias_or_name st n) ∷ rest

  unfoldable pub get_cte_names : Statement → List Text
  unfolding cte_names_of
  get_cte_names st = cte_names_of st (g.find_all st (g.root st) cte)

  unfoldable pub resolve_allowed_table :
      Statement → Node → AllowedSchema → List Text → Result Fault (Option (Text × AllowedTable))
  unfolding resolve_name
  resolve_allowed_table st node allowed_schema cte_names =
      let table_name = lower (g.name st node) in
      if contains cte_names table_name
      then ok none
      else (resolve_name (g.db st node) table_name allowed_schema.tables >>= λ r. ok (some r))

  unfoldable pub visit_table :
      Statement → AllowedSchema → List Text → Node → Referenced → Result Fault Referenced
  visit_table st allowed_schema cte_names node r = do
    resolved ← resolve_allowed_table st node allowed_schema cte_names
    elim resolved [ none ↦ ok r | some found ↦ ok (add_table (g.alias st node) found r) ]

  unfoldable pub collect_referenced_tables : Statement → AllowedSchema → Result Fault Referenced
  collect_referenced_tables st allowed_schema = do
    tables ←
        for_each (g.find_all st (g.root st) table) no_tables
          (visit_table st allowed_schema (get_cte_names st))
    raise_if (is_empty tables.referenced) (invalid no_allowed_table)
    ok tables
