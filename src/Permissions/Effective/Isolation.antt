-- ===== src/Permissions/Effective/Isolation.antt =====
-- Whose grants the schema of effective_permission_service.py is built from: those of the user's
-- own tenant, on the requested connection, to the user or to a role of the user.
use multi_tenant_data_chat_p.Shared.{
  ℕ, ◌≡◌, refl, sym, subst, ◌⊎◌, inl, inr, true, ◌&&◌, Option, none, some, List, [], ◌∷◌, map, In,
  here, there, In-filter_by, In-map, In-of_contains, ap, ◌∙◌, ==_iff, contains, filter_by, is_empty,
  ok, ok_inj, >>=-eq-ok, or_raise-eq-ok, Bool-cases, ◌==◌, nat_eq, arith,
}
use multi_tenant_data_chat_p.Shared.Text.{Text}
use multi_tenant_data_chat_p.Models.{User, UserRole, DatabaseConnection, Store}
use multi_tenant_data_chat_p.Permissions.{AllowedColumn, AllowedTable, AllowedSchema}
use multi_tenant_data_chat_p.Permissions.Repository.{
  PermissionRow, ColumnRow, IsOrdering, is_value, is_value_in, get_user_role_ids, is_effective,
  permission_rows, column_rows, get_effective_table_permissions, is_effective_column,
  get_effective_column_permissions,
}
use multi_tenant_data_chat_p.Permissions.Effective.{
  find_connection, connection_not_found, get_database_connection, readable_rows, readable_columns,
  build_permission_filtered_schema,
}
use multi_tenant_data_chat_p.Permissions.Effective.Provenance.{
  IsGrant, IsBacked, build_schema-IsBacked,
}

-- The permission is the user's, on this connection, and allows reading an enabled table.
pub record IsOwn (st : Store) (user : User) (connection_id : ℕ) (row : PermissionRow) : Type 0 where
  pub permission_tenant : row.0.tenant_id ≡ user.tenant_id
  pub permission_connection : row.0.connection_id ≡ connection_id
  pub table_tenant : row.1.tenant_id ≡ user.tenant_id
  pub table_connection : row.1.connection_id ≡ connection_id
  pub schema_tenant : row.2.tenant_id ≡ user.tenant_id
  pub schema_connection : row.2.connection_id ≡ connection_id
  pub same_table : row.0.table_id ≡ row.1.id
  pub same_schema : row.1.schema_id ≡ row.2.id
  pub enabled : row.1.is_enabled ≡ true
  pub readable : row.0.can_read ≡ true
  pub subject :
      (row.0.user_id ≡ some user.id)
      ⊎ ((r : UserRole) × In r st.user_roles
          × (r.user_id ≡ user.id)
          × (row.0.role_id ≡ some r.role_id))

-- A role id that is found is that of a stored role of the user.
get_user_role_ids_lem :
    (st : Store) (user_id n : ℕ)
    → contains (get_user_role_ids st user_id) n ≡ true
    → (r : UserRole) × In r st.user_roles × (r.user_id ≡ user_id) × (n ≡ r.role_id)
unfolding get_user_role_ids
get_user_role_ids_lem st user_id n h =
    let of_user = λ (r : UserRole). r.user_id == user_id in
    let (r, i, e) =
      In-map (λ (r : UserRole). r.role_id) (filter_by of_user st.user_roles) n
        (In-of_contains (map (λ (r : UserRole). r.role_id) (filter_by of_user st.user_roles)) n
          h) in
    let (j, own) = In-filter_by of_user r st.user_roles i in
    (r, j, (==_iff r.user_id user_id).0 own, e)

is_value-eq : (o : Option ℕ) (n : ℕ) → is_value o n ≡ true → o ≡ some n
is_value-eq none n h = cc
is_value-eq (some m) n h = ground arith

is_value_in-eq :
    (o : Option ℕ) (ns : List ℕ)
    → is_value_in o ns ≡ true
    → (r : ℕ) × (o ≡ some r) × (contains ns r ≡ true)
is_value_in-eq none ns h = cc
is_value_in-eq (some m) ns h = (m, refl, h)

effective-IsOwn :
    (st : Store) (user : User) (connection_id : ℕ) (row : PermissionRow)
    → is_effective user.tenant_id user.id connection_id (get_user_role_ids st user.id) row ≡ true
    → row.0.can_read ≡ true
    → IsOwn st user connection_id row
unfolding is_effective
effective-IsOwn st user connection_id row h r = record {
  permission_tenant = ground arith;
  permission_connection = ground arith;
  table_tenant = ground arith;
  table_connection = ground arith;
  schema_tenant = ground arith;
  schema_connection = ground arith;
  same_table = ground arith;
  same_schema = ground arith;
  enabled = ground arith;
  readable = r;
  subject = elim (Bool-cases (is_value row.0.user_id user.id)) [
    | inl own ↦ inl (is_value-eq row.0.user_id user.id own)
    | inr other ↦
        let (n, of_role, listed) =
          is_value_in-eq row.0.role_id (get_user_role_ids st user.id) (ground arith) in
        let (role, i, mine, e) = get_user_role_ids_lem st user.id n listed in
        inr (role, i, mine, of_role ∙ ap some e)
  ];
}

pub find_connection-tenant :
    (cs : List DatabaseConnection) (tenant_id connection_id : ℕ) (c : DatabaseConnection)
    → find_connection cs tenant_id connection_id ≡ some c
    → In c cs × (c.id ≡ connection_id) × (c.tenant_id ≡ tenant_id)
unfolding find_connection
find_connection-tenant [] tenant_id connection_id c h = cc
find_connection-tenant (x ∷ xs) tenant_id connection_id c h =
    elim (Bool-cases (x.id == connection_id && x.tenant_id == tenant_id)) [
      | inl this ↦ (here (ground arith), ground arith, ground arith)
      | inr other ↦
          let (i, same, own) = find_connection-tenant xs tenant_id connection_id c (ground arith) in
          (there i, same, own)
    ]

-- A connection that is found is stored, and is the tenant's: the id alone does not give access to
-- another's.
pub get_database_connection-tenant :
    (st : Store) (user : User) (connection_id : ℕ) (c : DatabaseConnection)
    → get_database_connection st user connection_id ≡ ok c
    → In c st.connections × (c.id ≡ connection_id) × (c.tenant_id ≡ user.tenant_id)
unfolding get_database_connection
get_database_connection-tenant st user connection_id c h =
    find_connection-tenant st.connections user.tenant_id connection_id c (
      or_raise-eq-ok (find_connection st.connections user.tenant_id connection_id)
        connection_not_found h)

module _ (order_rows : List PermissionRow → List PermissionRow)
    (order_columns : List ColumnRow → List ColumnRow) (rows_kept : IsOrdering order_rows)
    (columns_kept : IsOrdering order_columns) (st : Store) (user : User) (connection_id : ℕ) where
  readable_rows-IsOwn :
      (row : PermissionRow)
      → In row (readable_rows order_rows order_columns st user connection_id)
      → IsOwn st user connection_id row
  unfolding readable_rows get_effective_table_permissions
  readable_rows-IsOwn row i =
      let (j, readable) =
        In-filter_by (λ (r : PermissionRow). r.0.can_read) row
          (order_rows (
            filter_by
              (is_effective user.tenant_id user.id connection_id (get_user_role_ids st user.id))
              (permission_rows st)))
          i in
      let (_, effective) =
        In-filter_by
          (is_effective user.tenant_id user.id connection_id (get_user_role_ids st user.id)) row
          (permission_rows st) (rows_kept.from_ordered row _ j) in
      effective-IsOwn st user connection_id row effective readable

  readable_columns-tenant :
      (rows : List PermissionRow) (c : ColumnRow)
      → In c (readable_columns order_rows order_columns st user rows)
      → (c.1.tenant_id ≡ user.tenant_id) × (c.0.column_id ≡ c.1.id)
  unfolding readable_columns get_effective_column_permissions is_effective_column
  readable_columns-tenant rows c i =
      elim (Bool-cases (is_empty (map (λ (r : PermissionRow). r.0.id) rows))) [
        | inl none_at_all ↦ elim (rw none_at_all at i) [ ]
        | inr some_rows ↦
            let ids = map (λ (r : PermissionRow). r.0.id) rows in
            let (_, effective) =
              In-filter_by (is_effective_column user.tenant_id ids) c (column_rows st)
                (columns_kept.from_ordered c _ (rw some_rows at i)) in
            (ground arith, ground arith)
      ]

  -- Where the user's connection is found, every column of the schema that is built is granted by
  -- a permission of the user's own tenant, on this connection, to the user or a role of the
  -- user, that allows reading an enabled table; the column belongs to the tenant, and the flags
  -- and the mask that it has come from such grants.
  pub allowed_columns-IsOwn :
      (schema : AllowedSchema) (q name : Text) (t : AllowedTable) (column : AllowedColumn)
      → build_permission_filtered_schema order_rows order_columns st user connection_id ≡ ok schema
      → In (q, t) schema.tables
      → In (name, column) t.columns
      → let rows = readable_rows order_rows order_columns st user connection_id in
        let cols = readable_columns order_rows order_columns st user rows in
        IsBacked rows cols q name column
        × ((row : PermissionRow) (c : ColumnRow)
            → IsGrant rows cols q name row c
            → IsOwn st user connection_id row × (c.1.tenant_id ≡ user.tenant_id))
  unfolding build_permission_filtered_schema
  allowed_columns-IsOwn schema q name t column h i j =
      let rows = readable_rows order_rows order_columns st user connection_id in
      let cols = readable_columns order_rows order_columns st user rows in
      let (_, found, e) = >>=-eq-ok (get_database_connection st user connection_id) _ h in
      (
        build_schema-IsBacked rows cols connection_id q name t column
            (subst (λ (s : AllowedSchema). In (q, t) s.tables) (sym (ok_inj e)) i) j,
        λ row c grant.
            (readable_rows-IsOwn row grant.0, (readable_columns-tenant rows c grant.1).0),
      )
