-- ===== src/Grants.antt =====
-- The administration of table permissions: schemas/permission.py (Schemas),
-- services/database/permission_service.py and repositories/permissions.py.
pub mod Schemas
pub mod Filters
pub mod Groups
pub mod Guards
pub mod Invariant
pub mod Listing
pub mod Listed
use multi_tenant_data_chat_p.Shared.{
  ℕ, Bool, true, false, not, ◌&&◌, ◌||◌, Option, none, some, List, [], ◌∷◌, ◌++◌, map, length,
  contains, filter_by, is_empty, is_some, Result, ok, err, ◌>>=◌, ◌>>◌, raise_if, or_raise, ◌==◌,
  nat_eq, if◌then◌else◌,
}
use multi_tenant_data_chat_p.Shared.Text.{Text}
use multi_tenant_data_chat_p.Shared.Dict.{Dict, get, put, get_or}
use multi_tenant_data_chat_p.Values.{Fields}
use multi_tenant_data_chat_p.Models.{
  User, Role, DatabaseConnection, DatabaseTable, DatabaseColumn, TablePermission, ColumnPermission,
  Store,
}
use multi_tenant_data_chat_p.Permissions.Effective.{find_connection}
use multi_tenant_data_chat_p.Permissions.Repository.{is_value}
use multi_tenant_data_chat_p.Grants.Schemas.{
  ColumnPermissionInput, TablePermissionCreate, mask_type_value, dump_group,
}

-- The exceptions of the service; `several_results` is what `scalar_one_or_none` raises on more than
-- one row.
pub data PermissionError : Type 0 where
  administrator_required connection_not_found table_not_found : PermissionError
  role_not_found user_not_found duplicate_columns columns_not_found : PermissionError
  several_results duplicate_permission : PermissionError

-- `scalar_one_or_none`
unfoldable pub scalar_one_or_none : {A : Type 0} → List A → Result PermissionError (Option A)
scalar_one_or_none [] = ok none
scalar_one_or_none (a ∷ []) = ok (some a)
scalar_one_or_none (a ∷ b ∷ rows) = err several_results

unfoldable pub validate_permission_table : Store → ℕ → ℕ → ℕ → Result PermissionError DatabaseTable
unfolding scalar_one_or_none
validate_permission_table st tenant_id connection_id table_id = do
  table ← scalar_one_or_none (
      filter_by
        (λ (t : DatabaseTable).
          t.id == table_id && t.tenant_id == tenant_id && t.connection_id == connection_id)
        st.tables)
  or_raise table table_not_found

-- `if role_id is not None:` and the query under it.
unfoldable pub validate_role : Store → ℕ → Option ℕ → Result PermissionError (Unit {0})
unfolding scalar_one_or_none
validate_role st tenant_id none = ok tt
validate_role st tenant_id (some role_id) = do
  role ←
      scalar_one_or_none
        (filter_by (λ (r : Role). r.id == role_id && r.tenant_id == tenant_id) st.roles)
  raise_if (not (is_some role)) role_not_found

unfoldable pub validate_user : Store → ℕ → Option ℕ → Result PermissionError (Unit {0})
unfolding scalar_one_or_none
validate_user st tenant_id none = ok tt
validate_user st tenant_id (some user_id) = do
  user ←
      scalar_one_or_none
        (filter_by (λ (u : User). u.id == user_id && u.tenant_id == tenant_id) st.users)
  raise_if (not (is_some user)) user_not_found

unfoldable pub validate_permission_subject :
    Store → ℕ → Option ℕ → Option ℕ → Result PermissionError (Unit {0})
unfolding validate_role validate_user
validate_permission_subject st tenant_id role_id user_id = do
  validate_role st tenant_id role_id
  validate_user st tenant_id user_id

-- `len(ids) != len(set(ids))`
unfoldable pub has_duplicates : List ℕ → Bool
has_duplicates [] = false
has_duplicates (n ∷ ns) = contains ns n || has_duplicates ns

-- The items of one list are in another.
unfoldable pub is_subset : List ℕ → List ℕ → Bool
is_subset [] ns = true
is_subset (m ∷ ms) ns = contains ns m && is_subset ms ns

unfoldable pub validate_permission_columns :
    Store → ℕ → ℕ → List ℕ → Result PermissionError (Unit {0})
unfolding has_duplicates is_subset
validate_permission_columns st tenant_id table_id [] = ok tt
validate_permission_columns st tenant_id table_id (n ∷ ns) = do
  let column_ids = n ∷ ns
  raise_if (has_duplicates column_ids) duplicate_columns
  let valid_column_ids : List ℕ =
      map (λ (c : DatabaseColumn). c.id)
        (filter_by
          (λ (c : DatabaseColumn).
            c.tenant_id == tenant_id && c.table_id == table_id && contains column_ids c.id)
          st.columns)
  raise_if (not (is_subset valid_column_ids column_ids && is_subset column_ids valid_column_ids))
      columns_not_found

-- `TablePermission.role_id == role_id if role_id is not None else False`
unfoldable pub is_subject : Option ℕ → Option ℕ → Bool
is_subject stored none = false
is_subject stored (some n) = is_value stored n

unfoldable pub find_existing_table_permission :
    Store → ℕ → ℕ → Option ℕ → Option ℕ → Result PermissionError (Option TablePermission)
unfolding scalar_one_or_none is_subject
find_existing_table_permission st tenant_id table_id role_id user_id = scalar_one_or_none (
    filter_by
      (λ (p : TablePermission).
        p.tenant_id == tenant_id
        && p.table_id == table_id
        && (is_subject p.role_id role_id || is_subject p.user_id user_id))
      st.table_permissions)

unfoldable pub mask_value : ColumnPermissionInput → Option Text
unfolding mask_type_value
mask_value column = elim column.mask_type [ none ↦ none | some m ↦ some (mask_type_value m) ]

-- The column permissions, with the id of the permission that `create_table_permission` sets.
unfoldable pub column_permission : ℕ → ColumnPermissionInput → ColumnPermission
unfolding mask_value
column_permission permission_id column = record {
  table_permission_id = permission_id;
  column_id = column.column_id;
  can_read = column.can_read;
  can_filter = column.can_filter;
  can_aggregate = column.can_aggregate;
  mask_type = mask_value column;
}

unfoldable pub create_table_permission : Store → TablePermission → List ColumnPermission → Store
create_table_permission st permission column_permissions = record st {
  table_permissions = st.table_permissions ++ (permission ∷ []);
  column_permissions = st.column_permissions ++ column_permissions;
}

-- The guards of `create_permission`, in its order.
unfoldable pub check_permission :
    Store → User → TablePermissionCreate → Result PermissionError (Unit {0})
unfolding find_connection validate_permission_table validate_permission_subject
    validate_permission_columns find_existing_table_permission
check_permission st current_user request = do
  raise_if (not current_user.is_tenant_admin) administrator_required
  connection ←
      or_raise (find_connection st.connections current_user.tenant_id request.connection_id)
        connection_not_found
  table ← validate_permission_table st current_user.tenant_id request.connection_id request.table_id
  validate_permission_subject st current_user.tenant_id request.role_id request.user_id
  validate_permission_columns st current_user.tenant_id request.table_id
      (map (λ (c : ColumnPermissionInput). c.column_id) request.columns)
  existing ←
      find_existing_table_permission st current_user.tenant_id request.table_id request.role_id
        request.user_id
  raise_if (is_some existing) duplicate_permission

unfoldable pub new_permission : ℕ → User → TablePermissionCreate → TablePermission
unfolding dump_group
new_permission id current_user request = record {
  id = id;
  tenant_id = current_user.tenant_id;
  role_id = request.role_id;
  user_id = request.user_id;
  connection_id = request.connection_id;
  table_id = request.table_id;
  can_read = request.can_read;
  can_insert = request.can_insert;
  can_update = request.can_update;
  can_delete = request.can_delete;
  row_filter = dump_group request.row_filter;
}

-- The permission with its columns, and the database after the call; `id` is its new UUID.
unfoldable pub create_permission :
    Store
    → User
    → TablePermissionCreate
    → ℕ
    → Result PermissionError ((TablePermission × List ColumnPermission) × Store)
unfolding check_permission new_permission column_permission create_table_permission
create_permission st current_user request id = do
  check_permission st current_user request
  let permission : TablePermission = new_permission id current_user request
  let column_permissions : List ColumnPermission = map (column_permission id) request.columns
  ok ((permission, column_permissions), create_table_permission st permission column_permissions)
