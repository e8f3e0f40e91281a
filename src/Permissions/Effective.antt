-- ===== src/Permissions/Effective.antt =====
-- services/database/effective_permission_service.py: the grants of a user, merged into one schema.
pub mod Provenance
pub mod Coverage
pub mod Isolation
use multi_tenant_data_chat_p.Shared.{
  ℕ, Bool, true, false, not, ◌&&◌, ◌||◌, Option, none, some, List, [], ◌∷◌, ◌++◌, map, filter_by,
  is_empty, is_some, or_default, Result, ok, err, ◌>>=◌, or_raise, ◌==◌, nat_eq, if◌then◌else◌,
}
use multi_tenant_data_chat_p.Shared.Text.{Text, text, text_eq, qualify}
use multi_tenant_data_chat_p.Shared.Dict.{Dict, get, put, get_or}
use multi_tenant_data_chat_p.Values.{Fields, list, nil, field_value, truthy, str_uuid}
use multi_tenant_data_chat_p.Models.{
  User, DatabaseConnection, DatabaseSchema, DatabaseTable, DatabaseColumn, TablePermission,
  ColumnPermission, Store,
}
use multi_tenant_data_chat_p.Permissions.{AllowedColumn, AllowedTable, AllowedSchema}
use multi_tenant_data_chat_p.Permissions.Repository.{
  PermissionRow, ColumnRow, get_user_role_ids, get_effective_table_permissions,
  get_effective_column_permissions,
}

-- A filter without rules is left out.
unfoldable pub merge_row_filter : List Fields → Fields → List Fields
merge_row_filter filters row_filter =
    if truthy (or_default (field_value row_filter (text "rules")) (list nil))
    then filters ++ (row_filter ∷ [])
    else filters

-- `columns_by_permission`
unfoldable pub group_columns : List ColumnRow → Dict ℕ (List ColumnRow) → Dict ℕ (List ColumnRow)
group_columns [] d = d
group_columns (r ∷ rs) d =
    group_columns rs
      (put d r.0.table_permission_id (get_or d r.0.table_permission_id [] ++ (r ∷ [])))

unfoldable pub new_column : ColumnPermission → DatabaseColumn → AllowedColumn
new_column p c = record {
  column_id = str_uuid c.id;
  name = c.column_name;
  data_type = c.data_type;
  can_read = true;
  can_filter = p.can_filter;
  can_aggregate = p.can_aggregate;
  mask_type = p.mask_type;
}

-- Flags are joined; the first mask stays.
unfoldable pub widen_column : ColumnPermission → AllowedColumn → AllowedColumn
widen_column p old = record old {
  can_filter = old.can_filter || p.can_filter;
  can_aggregate = old.can_aggregate || p.can_aggregate;
  mask_type = if is_some old.mask_type then old.mask_type else p.mask_type;
}

unfoldable pub add_column :
    ColumnPermission → DatabaseColumn → Dict Text AllowedColumn → Dict Text AllowedColumn
unfolding new_column widen_column
add_column p c columns = elim (get columns c.column_name) [
  | none ↦ put columns c.column_name (new_column p c)
  | some old ↦ put columns c.column_name (widen_column p old)
]

-- The loop over the columns of one permission.
unfoldable pub merge_columns : List ColumnRow → Dict Text AllowedColumn → Dict Text AllowedColumn
merge_columns [] columns = columns
merge_columns ((p, c) ∷ rows) columns =
    merge_columns rows (if p.can_read then add_column p c columns else columns)

unfoldable pub new_table : TablePermission → DatabaseTable → DatabaseSchema → AllowedTable
new_table p t s = record {
  table_id = str_uuid t.id;
  schema_name = s.schema_name;
  table_name = t.table_name;
  can_read = p.can_read;
  can_insert = p.can_insert;
  can_update = p.can_update;
  can_delete = p.can_delete;
  columns = [];
  row_filters = [];
}

unfoldable pub widen_table : TablePermission → AllowedTable → AllowedTable
widen_table p old = record old {
  can_read = old.can_read || p.can_read;
  can_insert = old.can_insert || p.can_insert;
  can_update = old.can_update || p.can_update;
  can_delete = old.can_delete || p.can_delete;
}

-- The allowed table before the row filter and the columns of this permission are added.
unfoldable pub entry_of : PermissionRow → Dict Text AllowedTable → AllowedTable
unfolding new_table widen_table
entry_of (p, t, s) tables = elim (get tables (qualify s.schema_name t.table_name)) [
  | none ↦ new_table p t s
  | some old ↦ widen_table p old
]

abbrev pub name_of : PermissionRow → Text
name_of (p, t, s) = qualify s.schema_name t.table_name

module _ (columns_of : ℕ → List ColumnRow) where
  -- The body of the loop over the permissions.
  unfoldable pub merge_permission : PermissionRow → Dict Text AllowedTable → Dict Text AllowedTable
  merge_permission row tables =
      let entry = entry_of row tables in
      put tables (name_of row) (record entry {
        row_filters = merge_row_filter entry.row_filters row.0.row_filter;
        columns = merge_columns (columns_of row.0.id) entry.columns;
      })

  unfoldable pub merge_permissions :
      List PermissionRow → Dict Text AllowedTable → Dict Text AllowedTable
  merge_permissions [] tables = tables
  merge_permissions (row ∷ rows) tables = merge_permissions rows (merge_permission row tables)

-- `del` of every table without columns.
unfoldable pub drop_empty_tables : Dict Text AllowedTable → Dict Text AllowedTable
drop_empty_tables = filter_by (λ (_, t). not (is_empty t.columns))

unfoldable pub build_schema : ℕ → List PermissionRow → List ColumnRow → AllowedSchema
build_schema connection_id rows columns = record {
  connection_id = str_uuid connection_id;
  tables =
      drop_empty_tables (merge_permissions (λ id. get_or (group_columns columns []) id []) rows []);
}

-- `get_database_connection`: the connection with this id, if it is the tenant's.
unfoldable pub find_connection : List DatabaseConnection → ℕ → ℕ → Option DatabaseConnection
find_connection [] tenant_id connection_id = none
find_connection (c ∷ cs) tenant_id connection_id =
    let rest = find_connection cs tenant_id connection_id in
    if c.id == connection_id && c.tenant_id == tenant_id then some c else rest

pub data ConnectionError : Type 0 where
  connection_not_found : ConnectionError

unfoldable pub get_database_connection :
    Store → User → ℕ → Result ConnectionError DatabaseConnection
unfolding find_connection
get_database_connection st user connection_id =
    or_raise (find_connection st.connections user.tenant_id connection_id) connection_not_found

module _ (order_rows : List PermissionRow → List PermissionRow)
    (order_columns : List ColumnRow → List ColumnRow) where
  unfoldable pub readable_rows : Store → User → ℕ → List PermissionRow
  readable_rows st user connection_id =
      filter_by (λ (r : PermissionRow). r.0.can_read)
        (get_effective_table_permissions order_rows st user.tenant_id user.id connection_id
          (get_user_role_ids st user.id))

  unfoldable pub readable_columns : Store → User → List PermissionRow → List ColumnRow
  readable_columns st user rows =
      get_effective_column_permissions order_columns st user.tenant_id
        (map (λ (r : PermissionRow). r.0.id) rows)

  unfoldable pub build_permission_filtered_schema :
      Store → User → ℕ → Result ConnectionError AllowedSchema
  build_permission_filtered_schema st user connection_id = do
    _connection ← get_database_connection st user connection_id
    let rows = readable_rows st user connection_id
    ok (build_schema connection_id rows (readable_columns st user rows))
