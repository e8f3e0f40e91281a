-- ===== src/Discovery/Reference.antt =====
-- `build_discovery_result` against its meaning: the result says of each table and column what a
-- selection from the rows says, with no intermediate dict.
use mathlib.Core.Path.{fun_ext}
use multi_tenant_data_chat_p.Shared.{◌≡◌, refl, ap, ◌∙◌, List, [], map, length, contains, filter_by}
use multi_tenant_data_chat_p.Shared.Text.{Text, text_eq}
use multi_tenant_data_chat_p.Shared.Dict.{Dict, get, get_or}
use multi_tenant_data_chat_p.Discovery.{
  TableRow, SourceColumn, SourceRows, DiscoveredColumn, DiscoveredTable, DiscoveredSchema, TableKey,
  ColumnKey, table_key_eq, column_key_eq, record_key, column_key, collect_primary_keys,
  collect_foreign_keys, collect_row_counts, discovered_column, collect_columns, discovered_table,
  collect_tables, count_tables, build_discovery_result,
}
use multi_tenant_data_chat_p.Discovery.Meaning.{
  select, of_table, primary_key_of, row_count_of, foreign_key_of, column_of, table_of, schema_of,
}
use multi_tenant_data_chat_p.Discovery.Loops.{
  get-collect_foreign_keys, get-collect_row_counts, get_or-collect_primary_keys,
  get_or-collect_columns, get_or-collect_tables, or_else-none,
}
use multi_tenant_data_chat_p.Discovery.Counts.{AreDistinct, length-map-schema_of, count_tables_lem}

-- What the dicts say is what the rows say.
module _ (rows : SourceRows) where
  get_or-primary_keys :
      (k : TableKey)
      → get_or (collect_primary_keys rows.primary_key_rows []) k [] ≡ primary_key_of rows k
  unfolding primary_key_of get
  get_or-primary_keys k = get_or-collect_primary_keys rows.primary_key_rows [] k

  get-foreign_keys :
      (k : ColumnKey)
      → get (collect_foreign_keys rows.foreign_key_rows []) k ≡ foreign_key_of rows k
  unfolding foreign_key_of get
  get-foreign_keys k = get-collect_foreign_keys rows.foreign_key_rows [] k ∙ or_else-none _

  get-row_counts :
      (k : TableKey) → get (collect_row_counts rows.row_count_rows []) k ≡ row_count_of rows k
  unfolding row_count_of get
  get-row_counts k = get-collect_row_counts rows.row_count_rows [] k ∙ or_else-none _

  discovered_column_lem :
      discovered_column
        (collect_primary_keys rows.primary_key_rows [])
        (collect_foreign_keys rows.foreign_key_rows [])
      ≡ column_of rows
  unfolding discovered_column column_of
  discovered_column_lem = fun_ext λ r.
      rw (get-foreign_keys (column_key r.table_schema r.table_name r.column_name))
        (rw (get_or-primary_keys (record_key r.table_schema r.table_name)) refl)

  columns_dict : Dict TableKey (List DiscoveredColumn)
  columns_dict =
      collect_columns (collect_primary_keys rows.primary_key_rows [])
        (collect_foreign_keys rows.foreign_key_rows []) rows.column_rows []

  get_or-columns :
      (k : TableKey)
      → get_or columns_dict k []
        ≡ select
            (λ (c : SourceColumn). of_table k c.table_schema c.table_name)
            (column_of rows)
            rows.column_rows
  unfolding columns_dict get
  get_or-columns k =
      get_or-collect_columns (collect_primary_keys rows.primary_key_rows [])
        (collect_foreign_keys rows.foreign_key_rows []) rows.column_rows [] k
      ∙ rw discovered_column_lem

  discovered_table_lem :
      discovered_table
        (collect_row_counts rows.row_count_rows [])
        (collect_primary_keys rows.primary_key_rows [])
        columns_dict
      ≡ table_of rows
  unfolding discovered_table table_of
  discovered_table_lem = fun_ext λ r.
      let k = record_key r.table_schema r.table_name in
      rw (get-row_counts k) (rw (get_or-primary_keys k) (rw (get_or-columns k) refl))

  tables_dict : Dict Text (List DiscoveredTable)
  tables_dict =
      collect_tables (collect_row_counts rows.row_count_rows [])
        (collect_primary_keys rows.primary_key_rows []) columns_dict rows.table_rows []

  get_or-tables : (name : Text) → get_or tables_dict name [] ≡ (schema_of rows name).tables
  unfolding tables_dict schema_of get
  get_or-tables name =
      get_or-collect_tables (collect_row_counts rows.row_count_rows [])
        (collect_primary_keys rows.primary_key_rows []) columns_dict rows.table_rows [] name
      ∙ rw discovered_table_lem

  schema_lem :
      (name : Text)
      → ◌≡◌ {A = DiscoveredSchema}
          (record { schema_name = name; tables = get_or tables_dict name [] })
          (schema_of rows name)
  unfolding schema_of
  schema_lem name =
      ap (λ (ts : List DiscoveredTable). record { schema_name = name; tables = ts })
        (get_or-tables name)

  pub schemas_lem : (build_discovery_result rows).schemas ≡ map (schema_of rows) rows.schema_rows
  unfolding build_discovery_result tables_dict columns_dict
  schemas_lem = ap (λ f. map f rows.schema_rows) (fun_ext schema_lem)

pub counted_schemas :
    (rows : SourceRows)
    → (build_discovery_result rows).schema_count ≡ length (build_discovery_result rows).schemas
unfolding build_discovery_result
counted_schemas rows = refl

pub counted_tables :
    (rows : SourceRows)
    → (build_discovery_result rows).table_count ≡ count_tables (build_discovery_result rows).schemas
unfolding build_discovery_result
counted_tables rows = refl

-- For every rows of the six queries in which no schema is named twice, the result is the one
-- that selections from the rows give, with no dict between: a schema for each schema row, in it
-- a table for each table row of that schema, in the table its primary key, its last row count and
-- a column for each column row of that table, marked as a key if a key row names it and with the
-- target of its last foreign key, each in the order of the rows; and it counts the schema rows,
-- and the table rows whose schema is listed.
pub build_discovery_result_reference :
    (rows : SourceRows)
    → AreDistinct rows.schema_rows
    → ((build_discovery_result rows).schemas ≡ map (schema_of rows) rows.schema_rows)
      × ((build_discovery_result rows).schema_count ≡ length rows.schema_rows)
      × ((build_discovery_result rows).table_count
          ≡ length (
              filter_by
                (λ (t : TableRow). contains rows.schema_rows t.table_schema)
                rows.table_rows))
build_discovery_result_reference rows distinct = (
  schemas_lem rows,
  counted_schemas rows
      ∙ ap (length {A = DiscoveredSchema}) (schemas_lem rows)
      ∙ length-map-schema_of rows rows.schema_rows,
  counted_tables rows
      ∙ ap count_tables (schemas_lem rows)
      ∙ count_tables_lem rows rows.schema_rows distinct,
)
