-- ===== src/Permissions/Repository.antt =====
-- repositories/effective_permissions.py: the permissions of a user on one connection. The order of
-- a result is the database's (its collation, and its choice among equal rows), so the two
-- ORDER BY clauses are parameters.
use multi_tenant_data_chat_p.Shared.{
  ℕ, Bool, false, ◌&&◌, ◌||◌, Option, none, some, List, [], map, In, contains, filter_by, flat_map,
  is_empty, ◌==◌, nat_eq, if◌then◌else◌,
}
use multi_tenant_data_chat_p.Models.{
  UserRole, DatabaseSchema, DatabaseTable, DatabaseColumn, TablePermission, ColumnPermission, Store,
}

abbrev pub PermissionRow : Type 0
PermissionRow = TablePermission × DatabaseTable × DatabaseSchema

abbrev pub ColumnRow : Type 0
ColumnRow = ColumnPermission × DatabaseColumn

-- An ORDER BY returns the rows that it is given.
pub record IsOrdering {A : Type 0} (order : List A → List A) : Type 0 where
  pub from_ordered : (a : A) (xs : List A) → In a (order xs) → In a xs
  pub to_ordered : (a : A) (xs : List A) → In a xs → In a (order xs)

-- `TablePermission.user_id == user_id`: NULL equals nothing.
abbrev pub is_value : Option ℕ → ℕ → Bool
is_value none n = false
is_value (some m) n = m == n

-- `TablePermission.role_id.in_(role_ids)`
abbrev pub is_value_in : Option ℕ → List ℕ → Bool
is_value_in none ns = false
is_value_in (some m) ns = contains ns m

unfoldable pub get_user_role_ids : Store → ℕ → List ℕ
get_user_role_ids s user_id =
    map (λ r. r.role_id) (filter_by (λ (r : UserRole). r.user_id == user_id) s.user_roles)

module _ (tenant_id user_id connection_id : ℕ) (role_ids : List ℕ) where
  -- The WHERE clause of the join, with its two ON clauses. The condition on roles is left out of
  -- the query when the user has none, as no role is in an empty list.
  unfoldable pub is_effective : PermissionRow → Bool
  is_effective (p, t, s) =
      p.table_id == t.id
      && t.schema_id == s.id
      && p.tenant_id == tenant_id
      && p.connection_id == connection_id
      && t.tenant_id == tenant_id
      && t.connection_id == connection_id
      && t.is_enabled
      && s.tenant_id == tenant_id
      && s.connection_id == connection_id
      && (is_value p.user_id user_id || is_value_in p.role_id role_ids)

-- Every triple of a permission, a table and a schema.
unfoldable pub permission_rows : Store → List PermissionRow
unfolding flat_map
permission_rows st =
    flat_map (λ p. flat_map (λ t. map (λ s. (p, t, s)) st.schemas) st.tables) st.table_permissions

unfoldable pub column_rows : Store → List ColumnRow
unfolding flat_map
column_rows st = flat_map (λ p. map (λ c. (p, c)) st.columns) st.column_permissions

module _ (order : List PermissionRow → List PermissionRow) where
  unfoldable pub get_effective_table_permissions : Store → ℕ → ℕ → ℕ → List ℕ → List PermissionRow
  get_effective_table_permissions st tenant_id user_id connection_id role_ids =
      order (filter_by (is_effective tenant_id user_id connection_id role_ids) (permission_rows st))

module _ (tenant_id : ℕ) (table_permission_ids : List ℕ) where
  unfoldable pub is_effective_column : ColumnRow → Bool
  is_effective_column (p, c) =
      p.column_id == c.id
      && contains table_permission_ids p.table_permission_id
      && c.tenant_id == tenant_id

module _ (order : List ColumnRow → List ColumnRow) where
  unfoldable pub get_effective_column_permissions : Store → ℕ → List ℕ → List ColumnRow
  get_effective_column_permissions st tenant_id ids =
      if is_empty ids
      then []
      else order (filter_by (is_effective_column tenant_id ids) (column_rows st))
