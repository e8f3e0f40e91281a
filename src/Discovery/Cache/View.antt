-- ===== src/Discovery/Cache/View.antt =====
-- The cached metadata of a connection, read back as the nested schemas that were discovered.
use multi_tenant_data_chat_p.Shared.{ℕ, false, ◌&&◌, List, map, filter_by, or_default, ◌==◌, nat_eq}
use multi_tenant_data_chat_p.Models.{DatabaseSchema, DatabaseTable, DatabaseColumn, Store}
use multi_tenant_data_chat_p.Discovery.{DiscoveredColumn, DiscoveredTable, DiscoveredSchema}
use multi_tenant_data_chat_p.Discovery.Cache.{is_schema_of, is_table_of}

unfoldable pub column_view : DatabaseColumn → DiscoveredColumn
column_view c = record {
  column_name = c.column_name;
  data_type = c.data_type;
  ordinal_position = or_default c.ordinal_position 0;
  is_nullable = or_default c.is_nullable false;
  is_primary_key = c.is_primary_key;
  is_foreign_key = c.is_foreign_key;
  referenced_schema = c.referenced_schema;
  referenced_table = c.referenced_table;
  referenced_column = c.referenced_column;
}

module _ (tenant_id connection_id : ℕ) where
  unfoldable pub columns_in : List DatabaseColumn → ℕ → List DiscoveredColumn
  unfolding column_view
  columns_in columns table_id = map column_view (
      filter_by (λ (c : DatabaseColumn). c.tenant_id == tenant_id && c.table_id == table_id)
        columns)

  unfoldable pub table_view : Store → DatabaseSchema → DatabaseTable → DiscoveredTable
  unfolding columns_in
  table_view st s t = record {
    schema_name = s.schema_name;
    table_name = t.table_name;
    table_type = t.table_type;
    estimated_row_count = t.estimated_row_count;
    primary_key_columns = t.primary_key_columns;
    columns = columns_in st.columns t.id;
  }

  unfoldable pub tables_in : Store → DatabaseSchema → List DiscoveredTable
  unfolding table_view
  tables_in st s = map (table_view st s) (
      filter_by
        (λ (t : DatabaseTable). is_table_of tenant_id connection_id t && t.schema_id == s.id)
        st.tables)

  unfoldable pub schema_view : Store → DatabaseSchema → DiscoveredSchema
  unfolding tables_in
  schema_view st s = record { schema_name = s.schema_name; tables = tables_in st s }

  -- What the cache says of a connection.
  unfoldable pub cached_view : Store → List DiscoveredSchema
  unfolding schema_view
  cached_view st =
      map (schema_view st) (filter_by (is_schema_of tenant_id connection_id) st.schemas)
