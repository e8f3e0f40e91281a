-- ===== src/Discovery/Meaning.antt =====
-- What the rows of the six queries say of a table, a column and a schema, by selections.
use multi_tenant_data_chat_p.Shared.{
  ℕ, Bool, Option, none, some, List, [], ◌∷◌, ◌++◌, contains, is_some, ◌==◌, if◌then◌else◌,
}
use multi_tenant_data_chat_p.Shared.Text.{Text, text, text_eq}
use multi_tenant_data_chat_p.Discovery.{
  TableRow, SourceColumn, PrimaryKeyRow, ForeignKeyRow, RowCountRow, SourceRows, DiscoveredColumn,
  DiscoveredTable, DiscoveredSchema, TableKey, ColumnKey, table_key_eq, column_key_eq, record_key,
  column_key,
}

abbrev pub or_else {ℓ} : {A : Type ℓ} → Option A → Option A → Option A
or_else none other = other
or_else (some a) other = some a

-- The value of the last item that passes a test.
abbrev pub last_of {ℓ κ} : {A : Type ℓ} {B : Type κ} → (A → Bool) → (A → B) → List A → Option B
last_of p f [] = none
last_of p f (x ∷ xs) = or_else (last_of p f xs) (if p x then some (f x) else none)

-- The values of the items that pass a test.
abbrev pub select {ℓ κ} : {A : Type ℓ} {B : Type κ} → (A → Bool) → (A → B) → List A → List B
select p f [] = []
select p f (x ∷ xs) = (if p x then f x ∷ [] else []) ++ select p f xs

abbrev pub of_table : TableKey → Text → Text → Bool
of_table key schema table = key == record_key schema table

-- What the rows say of one table, and of the foreign key of one column.
module _ (rows : SourceRows) where
  unfoldable pub primary_key_of : TableKey → List Text
  primary_key_of key =
      select (λ (r : PrimaryKeyRow). of_table key r.table_schema r.table_name)
        (λ (r : PrimaryKeyRow). r.column_name) rows.primary_key_rows

  unfoldable pub row_count_of : TableKey → Option ℕ
  row_count_of key =
      last_of (λ (r : RowCountRow). of_table key r.table_schema r.table_name)
        (λ (r : RowCountRow). r.estimated_row_count) rows.row_count_rows

  unfoldable pub foreign_key_of : ColumnKey → Option (Text × Text × Text)
  foreign_key_of key =
      last_of (λ (r : ForeignKeyRow). key == column_key r.table_schema r.table_name r.column_name)
        (λ (r : ForeignKeyRow). (r.referenced_schema, r.referenced_table, r.referenced_column))
        rows.foreign_key_rows

  unfoldable pub column_of : SourceColumn → DiscoveredColumn
  unfolding primary_key_of foreign_key_of text_eq
  column_of r =
      let target = foreign_key_of (column_key r.table_schema r.table_name r.column_name) in
      record {
        column_name = r.column_name;
        data_type = r.data_type;
        ordinal_position = r.ordinal_position;
        is_nullable = r.is_nullable == text "YES";
        is_primary_key =
            contains (primary_key_of (record_key r.table_schema r.table_name)) r.column_name;
        is_foreign_key = is_some target;
        referenced_schema = elim target [ none ↦ none | some (s, t, c) ↦ some s ];
        referenced_table = elim target [ none ↦ none | some (s, t, c) ↦ some t ];
        referenced_column = elim target [ none ↦ none | some (s, t, c) ↦ some c ];
      }

  unfoldable pub table_of : TableRow → DiscoveredTable
  unfolding primary_key_of row_count_of column_of
  table_of r =
      let key = record_key r.table_schema r.table_name in
      record {
        schema_name = r.table_schema;
        table_name = r.table_name;
        table_type = r.table_type;
        estimated_row_count = row_count_of key;
        primary_key_columns = primary_key_of key;
        columns =
            select (λ (c : SourceColumn). of_table key c.table_schema c.table_name) column_of
              rows.column_rows;
      }

  unfoldable pub schema_of : Text → DiscoveredSchema
  unfolding table_of
  schema_of name = record {
    schema_name = name;
    tables = select (λ (t : TableRow). name == t.table_schema) table_of rows.table_rows;
  }
