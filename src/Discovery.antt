-- ===== src/Discovery.antt =====
-- services/database/schema_discovery.py: the rows that the six queries on a source database
-- return, assembled into one nested result. A row of `SCHEMA_QUERY` is the name that it holds.
pub mod Meaning
pub mod Loops
pub mod Counts
pub mod Reference
pub mod Cache
pub mod Catalog
pub mod Sync
use multi_tenant_data_chat_p.Shared.{
  ℕ, ◌+◌, Bool, true, false, Option, none, some, List, [], ◌∷◌, ◌++◌, map, length, contains,
  is_some, Eq, ◌==◌, Result, ok, err,
}
use multi_tenant_data_chat_p.Shared.Text.{Text, text, text_eq}
use multi_tenant_data_chat_p.Shared.Dict.{Dict, get, put, get_or, append_at}

pub record TableRow : Type 0 where
  pub table_schema : Text
  pub table_name : Text
  pub table_type : Text

pub record SourceColumn : Type 0 where
  pub table_schema : Text
  pub table_name : Text
  pub column_name : Text
  pub data_type : Text
  pub ordinal_position : ℕ
  pub is_nullable : Text

pub record PrimaryKeyRow : Type 0 where
  pub table_schema : Text
  pub table_name : Text
  pub column_name : Text

pub record ForeignKeyRow : Type 0 where
  pub table_schema : Text
  pub table_name : Text
  pub column_name : Text
  pub referenced_schema : Text
  pub referenced_table : Text
  pub referenced_column : Text

pub record RowCountRow : Type 0 where
  pub table_schema : Text
  pub table_name : Text
  pub estimated_row_count : ℕ

-- The result sets of the six queries.
pub record SourceRows : Type 0 where
  pub schema_rows : List Text
  pub table_rows : List TableRow
  pub column_rows : List SourceColumn
  pub primary_key_rows : List PrimaryKeyRow
  pub foreign_key_rows : List ForeignKeyRow
  pub row_count_rows : List RowCountRow

pub record DiscoveredColumn : Type 0 where
  pub column_name : Text
  pub data_type : Text
  pub ordinal_position : ℕ
  pub is_nullable : Bool
  pub is_primary_key : Bool
  pub is_foreign_key : Bool
  pub referenced_schema : Option Text
  pub referenced_table : Option Text
  pub referenced_column : Option Text

pub record DiscoveredTable : Type 0 where
  pub schema_name : Text
  pub table_name : Text
  pub table_type : Text
  pub estimated_row_count : Option ℕ
  pub primary_key_columns : List Text
  pub columns : List DiscoveredColumn

pub record DiscoveredSchema : Type 0 where
  pub schema_name : Text
  pub tables : List DiscoveredTable

pub record SchemaDiscoveryResult : Type 0 where
  pub schemas : List DiscoveredSchema
  pub schema_count : ℕ
  pub table_count : ℕ
  pub column_count : ℕ

-- The key of a table, and of a column of it.
pub record TableKey : Type 0 where
  pub schema : Text
  pub table : Text

pub record ColumnKey : Type 0 where
  pub schema : Text
  pub table : Text
  pub column : Text

abbrev pub record_key : Text → Text → TableKey
record_key schema_name table_name = record { schema = schema_name; table = table_name }

abbrev pub column_key : Text → Text → Text → ColumnKey
column_key schema_name table_name column_name = record {
  schema = schema_name;
  table = table_name;
  column = column_name;
}

table_key_dec : Discrete TableKey
table_key_dec = hlevel (text_eq.dec)

column_key_dec : Discrete ColumnKey
column_key_dec = hlevel (text_eq.dec)

instance unfoldable pub table_key_eq : Eq TableKey
unfolding table_key_dec
table_key_eq = record { dec = table_key_dec }

instance unfoldable pub column_key_eq : Eq ColumnKey
unfolding column_key_dec
column_key_eq = record { dec = column_key_dec }

unfoldable pub collect_primary_keys :
    List PrimaryKeyRow → Dict TableKey (List Text) → Dict TableKey (List Text)
unfolding append_at
collect_primary_keys [] d = d
collect_primary_keys (row ∷ rows) d =
    let key = record_key row.table_schema row.table_name in
    collect_primary_keys rows (append_at d key row.column_name)

unfoldable pub collect_foreign_keys :
    List ForeignKeyRow → Dict ColumnKey (Text × Text × Text) → Dict ColumnKey (Text × Text × Text)
collect_foreign_keys [] d = d
collect_foreign_keys (row ∷ rows) d =
    let key = column_key row.table_schema row.table_name row.column_name in
    collect_foreign_keys rows
      (put d key (row.referenced_schema, row.referenced_table, row.referenced_column))

unfoldable pub collect_row_counts : List RowCountRow → Dict TableKey ℕ → Dict TableKey ℕ
collect_row_counts [] d = d
collect_row_counts (row ∷ rows) d =
    let key = record_key row.table_schema row.table_name in
    collect_row_counts rows (put d key row.estimated_row_count)

unfoldable pub discovered_column :
    Dict TableKey (List Text)
    → Dict ColumnKey (Text × Text × Text)
    → SourceColumn
    → DiscoveredColumn
unfolding text_eq
discovered_column primary_keys foreign_keys row =
    let table_key = record_key row.table_schema row.table_name in
    let foreign_key_of = column_key row.table_schema row.table_name row.column_name in
    let foreign_key = get foreign_keys foreign_key_of in
    record {
      column_name = row.column_name;
      data_type = row.data_type;
      ordinal_position = row.ordinal_position;
      is_nullable = row.is_nullable == text "YES";
      is_primary_key = contains (get_or primary_keys table_key []) row.column_name;
      is_foreign_key = is_some foreign_key;
      referenced_schema = elim foreign_key [ none ↦ none | some (s, t, c) ↦ some s ];
      referenced_table = elim foreign_key [ none ↦ none | some (s, t, c) ↦ some t ];
      referenced_column = elim foreign_key [ none ↦ none | some (s, t, c) ↦ some c ];
    }

unfoldable pub collect_columns :
    Dict TableKey (List Text)
    → Dict ColumnKey (Text × Text × Text)
    → List SourceColumn
    → Dict TableKey (List DiscoveredColumn)
    → Dict TableKey (List DiscoveredColumn)
unfolding append_at discovered_column
collect_columns primary_keys foreign_keys [] d = d
collect_columns primary_keys foreign_keys (row ∷ rows) d =
    let key = record_key row.table_schema row.table_name in
    collect_columns primary_keys foreign_keys rows
      (append_at d key (discovered_column primary_keys foreign_keys row))

unfoldable pub discovered_table :
    Dict TableKey ℕ
    → Dict TableKey (List Text)
    → Dict TableKey (List DiscoveredColumn)
    → TableRow
    → DiscoveredTable
discovered_table row_counts primary_keys columns row =
    let key = record_key row.table_schema row.table_name in
    record {
      schema_name = row.table_schema;
      table_name = row.table_name;
      table_type = row.table_type;
      estimated_row_count = get row_counts key;
      primary_key_columns = get_or primary_keys key [];
      columns = get_or columns key [];
    }

unfoldable pub collect_tables :
    Dict TableKey ℕ
    → Dict TableKey (List Text)
    → Dict TableKey (List DiscoveredColumn)
    → List TableRow
    → Dict Text (List DiscoveredTable)
    → Dict Text (List DiscoveredTable)
unfolding append_at discovered_table
collect_tables row_counts primary_keys columns [] d = d
collect_tables row_counts primary_keys columns (row ∷ rows) d =
    collect_tables row_counts primary_keys columns rows
      (append_at d row.table_schema (discovered_table row_counts primary_keys columns row))

unfoldable pub count_tables : List DiscoveredSchema → ℕ
count_tables [] = 0
count_tables (s ∷ schemas) = length s.tables + count_tables schemas

unfoldable pub count_table_columns : List DiscoveredTable → ℕ
count_table_columns [] = 0
count_table_columns (t ∷ tables) = length t.columns + count_table_columns tables

unfoldable pub count_columns : List DiscoveredSchema → ℕ
unfolding count_table_columns
count_columns [] = 0
count_columns (s ∷ schemas) = count_table_columns s.tables + count_columns schemas

unfoldable pub build_discovery_result : SourceRows → SchemaDiscoveryResult
unfolding collect_primary_keys collect_foreign_keys collect_row_counts collect_columns
    collect_tables count_tables count_columns
build_discovery_result rows =
    let primary_keys = collect_primary_keys rows.primary_key_rows [] in
    let foreign_keys = collect_foreign_keys rows.foreign_key_rows [] in
    let estimated_row_counts = collect_row_counts rows.row_count_rows [] in
    let discovered_columns = collect_columns primary_keys foreign_keys rows.column_rows [] in
    let discovered_tables =
      collect_tables estimated_row_counts primary_keys discovered_columns rows.table_rows [] in
    let schemas =
      map
        (λ (name : Text). record { schema_name = name; tables = get_or discovered_tables name [] })
        rows.schema_rows in
    record {
      schemas = schemas;
      schema_count = length schemas;
      table_count = count_tables schemas;
      column_count = count_columns schemas;
    }
