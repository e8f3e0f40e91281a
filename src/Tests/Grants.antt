-- ===== src/Tests/Grants.antt =====
-- The merged schema of the sample user.
use multi_tenant_data_chat_p.Shared.{◌≡◌, refl, ok, In, here, [], ◌∷◌, flat_map, nat_eq}
use multi_tenant_data_chat_p.Shared.Text.{text, text_eq, same_text, qualify}
use multi_tenant_data_chat_p.Shared.Dict.{get, put}
use multi_tenant_data_chat_p.Values.{field_value, truthy}
use multi_tenant_data_chat_p.Permissions.Repository.{
  PermissionRow, ColumnRow, get_user_role_ids, is_effective, permission_rows, column_rows,
  get_effective_table_permissions, is_effective_column, get_effective_column_permissions,
}
use multi_tenant_data_chat_p.Permissions.Effective.{
  merge_row_filter, group_columns, new_column, widen_column, add_column, merge_columns, new_table,
  widen_table, entry_of, merge_permission, merge_permissions, drop_empty_tables, find_connection,
  get_database_connection, readable_rows, readable_columns, build_permission_filtered_schema,
  build_schema,
}
use multi_tenant_data_chat_p.Permissions.Effective.Provenance.{
  IsBacked, IsGrant, build_schema-IsBacked,
}
use multi_tenant_data_chat_p.Permissions.Effective.Coverage.{Covers, build_schema-Covers}
use multi_tenant_data_chat_p.Permissions.Effective.Isolation.{
  IsOwn, get_database_connection-tenant, allowed_columns-IsOwn,
}
use multi_tenant_data_chat_p.Tests.Sample.{
  sample_user, sample_store, sample_row, sample_column, sample_allowed, allowed_orders, allowed_id,
  sample_connection, stored_order,
}

merged : build_schema 5 (sample_row ∷ []) (sample_column ∷ []) ≡ sample_allowed
unfolding build_schema group_columns merge_permissions merge_permission entry_of new_table
    widen_table merge_row_filter field_value truthy merge_columns add_column new_column widen_column
    drop_empty_tables get put nat_eq text_eq same_text qualify
merged = refl

build_schema-IsBacked_example :
    IsBacked (sample_row ∷ []) (sample_column ∷ []) (text "public.orders") (text "id") allowed_id
unfolding build_schema group_columns merge_permissions merge_permission entry_of new_table
    widen_table merge_row_filter field_value truthy merge_columns add_column new_column widen_column
    drop_empty_tables get put nat_eq text_eq same_text qualify
build_schema-IsBacked_example =
    build_schema-IsBacked (sample_row ∷ []) (sample_column ∷ []) 5 (text "public.orders")
      (text "id") allowed_orders allowed_id (here refl) (here refl)

build_schema-Covers_example :
    Covers sample_column sample_row (build_schema 5 (sample_row ∷ []) (sample_column ∷ [])).tables
build_schema-Covers_example =
    build_schema-Covers 5 (sample_row ∷ []) (sample_column ∷ []) sample_row sample_column
      (here refl) (here refl) refl refl

pub permitted :
    build_permission_filtered_schema (λ xs. xs) (λ xs. xs) sample_store sample_user 5
    ≡ ok sample_allowed
unfolding build_permission_filtered_schema get_database_connection find_connection readable_rows
    readable_columns get_effective_table_permissions get_effective_column_permissions
    get_user_role_ids is_effective permission_rows column_rows is_effective_column flat_map
    build_schema group_columns merge_permissions merge_permission entry_of new_table widen_table
    merge_row_filter field_value truthy merge_columns add_column new_column widen_column
    drop_empty_tables get put nat_eq text_eq same_text qualify
permitted = refl

allowed_columns-IsOwn_example :
    let rows = readable_rows (λ xs. xs) (λ xs. xs) sample_store sample_user 5 in
    let cols = readable_columns (λ xs. xs) (λ xs. xs) sample_store sample_user rows in
    IsBacked rows cols (text "public.orders") (text "id") allowed_id
    × ((row : PermissionRow) (c : ColumnRow)
        → IsGrant rows cols (text "public.orders") (text "id") row c
        → IsOwn sample_store sample_user 5 row × (c.1.tenant_id ≡ 7))
allowed_columns-IsOwn_example =
    allowed_columns-IsOwn (λ xs. xs) (λ xs. xs) stored_order stored_order sample_store sample_user 5
      sample_allowed (text "public.orders") (text "id") allowed_orders allowed_id permitted
      (here refl) (here refl)

get_database_connection-tenant_example :
    In sample_connection sample_store.connections
    × (sample_connection.id ≡ 5)
    × (sample_connection.tenant_id ≡ 7)
unfolding get_database_connection find_connection nat_eq
get_database_connection-tenant_example =
    get_database_connection-tenant sample_store sample_user 5 sample_connection refl
