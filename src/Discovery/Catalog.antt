-- ===== src/Discovery/Catalog.antt =====
-- services/database/metadata_query_service.py over repositories/database_schema.py: the listing of
-- cached metadata. The ORDER BY clauses are parameters.
pub mod Listed
use multi_tenant_data_chat_p.Shared.{
  ℕ, Bool, true, ◌&&◌, Option, none, some, List, [], ◌∷◌, map, length, contains, filter_by,
  flat_map, Result, ok, err, ◌>>=◌, or_raise, ◌==◌, nat_eq,
}
use multi_tenant_data_chat_p.Shared.Text.{Text, text_eq}
use multi_tenant_data_chat_p.Shared.Dict.{Dict, get_or, group_by}
use multi_tenant_data_chat_p.Models.{User, DatabaseSchema, DatabaseTable, DatabaseColumn, Store}
use multi_tenant_data_chat_p.Permissions.Effective.{ConnectionError, get_database_connection}
use multi_tenant_data_chat_p.Discovery.Cache.{is_schema_of, is_table_of}

-- The rows of the query, and the count of a second query under the same conditions.
unfoldable pub list_cached_schemas :
    (List DatabaseSchema → List DatabaseSchema) → Store → ℕ → ℕ → List DatabaseSchema × ℕ
list_cached_schemas order st tenant_id connection_id =
    let rows = filter_by (is_schema_of tenant_id connection_id) st.schemas in
    (order rows, length rows)

abbrev pub CachedRow : Type 0
CachedRow = DatabaseTable × DatabaseSchema

-- `if schema_name is not None:` and the condition under it.
abbrev pub has_name : Option Text → DatabaseSchema → Bool
has_name none s = true
has_name (some name) s = s.schema_name == name

module _ (tenant_id connection_id : ℕ) (schema_name : Option Text) where
  -- The ON and the WHERE clause.
  unfoldable pub is_cached : CachedRow → Bool
  is_cached (t, s) =
      (t.schema_id == s.id && is_table_of tenant_id connection_id t)
      && (is_schema_of tenant_id connection_id s && has_name schema_name s)

  unfoldable pub cached_rows : Store → List CachedRow
  unfolding is_cached flat_map
  cached_rows st = filter_by is_cached (flat_map (λ t. map (λ s. (t, s)) st.schemas) st.tables)

module _ (order_columns : List DatabaseColumn → List DatabaseColumn) where
  -- `if table_ids:` and the query and the loop under it.
  unfoldable pub columns_by_table : Store → ℕ → List ℕ → Dict ℕ (List DatabaseColumn)
  unfolding group_by
  columns_by_table st tenant_id [] = []
  columns_by_table st tenant_id (n ∷ ids) =
      group_by (λ (c : DatabaseColumn). c.table_id)
        (order_columns (
          filter_by
            (λ (c : DatabaseColumn). c.tenant_id == tenant_id && contains (n ∷ ids) c.table_id)
            st.columns))
        []

-- A `DatabaseTableResponse` repeats the fields of the table.
pub record DatabaseTableResponse : Type 0 where
  pub table : DatabaseTable
  pub schema_name : Text
  pub columns : List DatabaseColumn

unfoldable pub get_cached_schemas :
    (List DatabaseSchema → List DatabaseSchema)
    → Store
    → User
    → ℕ
    → Result ConnectionError (List DatabaseSchema × ℕ)
unfolding get_database_connection list_cached_schemas
get_cached_schemas order st current_user connection_id =
    get_database_connection st current_user connection_id >>= λ c.
    ok (list_cached_schemas order st current_user.tenant_id connection_id)

module _ (order : List CachedRow → List CachedRow)
    (order_columns : List DatabaseColumn → List DatabaseColumn) where
  unfoldable pub list_cached_tables :
      Store → ℕ → ℕ → Option Text → List CachedRow × Dict ℕ (List DatabaseColumn) × ℕ
  unfolding cached_rows columns_by_table
  list_cached_tables st tenant_id connection_id schema_name =
      let rows = cached_rows tenant_id connection_id schema_name st in
      (
        order rows,
        columns_by_table order_columns st tenant_id (map (λ (r : CachedRow). r.0.id) (order rows)),
        length rows,
      )

  -- One item of the response.
  unfoldable pub table_response : Dict ℕ (List DatabaseColumn) → CachedRow → DatabaseTableResponse
  table_response columns (t, s) = record {
    table = t;
    schema_name = s.schema_name;
    columns = get_or columns t.id [];
  }

  unfoldable pub get_cached_tables :
      Store → User → ℕ → Option Text → Result ConnectionError (List DatabaseTableResponse × ℕ)
  unfolding get_database_connection list_cached_tables table_response
  get_cached_tables st current_user connection_id schema_name = do
    connection ← get_database_connection st current_user connection_id
    let (rows, columns, total) =
        list_cached_tables st current_user.tenant_id connection_id schema_name
    ok (map (table_response columns) rows, total)
