-- ===== src/Discovery/Cache/Deletes.antt =====
-- The deletes of a connection's tables and schemas keep the rows of others.
use multi_tenant_data_chat_p.Shared.{
  ℕ, ◌≡◌, refl, sym, ap, ◌≢◌, inl, inr, Bool, true, false, not, map, contains, filter_by, In,
  In-filter_by, In-filter_by_of, Bool-cases, nat_eq,
}
use multi_tenant_data_chat_p.Models.{
  DatabaseSchema, DatabaseTable, DatabaseColumn, TablePermission, ColumnPermission, Store,
}
use multi_tenant_data_chat_p.Discovery.Cache.{
  delete_columns, delete_table_permissions, delete_tables, delete_schemas, is_schema_of,
  is_table_of,
}
use multi_tenant_data_chat_p.Discovery.Cache.Clearing.{IsPart-delete_tables}
use multi_tenant_data_chat_p.Discovery.Cache.ColumnGrants.{IsApart, column_grant-delete_tables}
use multi_tenant_data_chat_p.Discovery.Cache.Kept.{
  contains-keys, kept_table, kept_schema, kept_column, kept_grant, left_grant,
}

module _ (tenant_id connection_id : ℕ) where
  -- A table in a schema of the connection is itself of the connection.
  abbrev pub AreConsistent : Store → Type 0
  AreConsistent st =
      (t : DatabaseTable)
      → In t st.tables
      → (s : DatabaseSchema) → In s st.schemas
      → t.schema_id ≡ s.id
      → is_schema_of tenant_id connection_id s ≡ true
      → is_table_of tenant_id connection_id t ≡ true

  -- The deletes of tables and of schemas, for a store whose tables fit their schemas.
  module _ (st : Store) (fits : AreConsistent st) where
    unfoldable pub without_tables : Store
    without_tables = delete_tables (is_table_of tenant_id connection_id) st

    unfoldable pub without_schemas : Store
    unfolding without_tables
    without_schemas = delete_schemas (is_schema_of tenant_id connection_id) without_tables

    in_deleted_schema : DatabaseTable → Bool
    unfolding without_tables
    in_deleted_schema t =
        contains
          (map (λ (s : DatabaseSchema). s.id)
            (filter_by (is_schema_of tenant_id connection_id) without_tables.schemas))
          t.schema_id

    -- The CASCADE of the second delete finds no table that the first has left.
    no_more_tables : (t : DatabaseTable) → In t without_tables.tables → in_deleted_schema t ≡ false
    unfolding in_deleted_schema delete_tables delete_columns delete_table_permissions
    no_more_tables t i =
        let (j, other) =
          In-filter_by (λ (t : DatabaseTable). not (is_table_of tenant_id connection_id t)) t
            st.tables i in
        elim (Bool-cases (in_deleted_schema t)) [
          | inl listed ↦
              let (s, k, mine, e) =
                contains-keys (λ (s : DatabaseSchema). s.id) (is_schema_of tenant_id connection_id)
                  st.schemas t.schema_id listed in
              cc (ap not (fits t j s k (sym e) mine), other)
          | inr unlisted ↦ unlisted
        ]

    unseen :
        (n : ℕ) (t : DatabaseTable)
        → In t without_tables.tables
        → in_deleted_schema t ≡ true
        → n ≢ t.id
    unseen n t i h = cc (no_more_tables t i, h)

    pub others_kept :
        ((s : DatabaseSchema)
          → In s st.schemas
          → is_schema_of tenant_id connection_id s ≡ false
          → In s without_schemas.schemas)
        × ((t : DatabaseTable)
            → In t st.tables
            → is_table_of tenant_id connection_id t ≡ false
            → In t without_schemas.tables)
        × ((c : DatabaseColumn)
            → In c st.columns
            → ((t : DatabaseTable)
                → In t st.tables
                → is_table_of tenant_id connection_id t ≡ true
                → c.table_id ≢ t.id)
            → In c without_schemas.columns)
        × ((g : TablePermission)
            → In g st.table_permissions
            → ((t : DatabaseTable)
                → In t st.tables
                → is_table_of tenant_id connection_id t ≡ true
                → g.table_id ≢ t.id)
            → In g without_schemas.table_permissions)
        × ((g : ColumnPermission)
            → In g st.column_permissions
            → IsApart (is_table_of tenant_id connection_id) st g
            → In g without_schemas.column_permissions)
        × ((g : TablePermission) (t : DatabaseTable)
            → In g without_schemas.table_permissions
            → In t st.tables
            → is_table_of tenant_id connection_id t ≡ true
            → g.table_id ≢ t.id)
    unfolding without_schemas in_deleted_schema delete_schemas
    others_kept =
        let mine = is_table_of tenant_id connection_id in
        (
          λ s i h.
              In-filter_by_of (λ (s : DatabaseSchema). not (is_schema_of tenant_id connection_id s))
                s _ (kept_schema mine st s i) (rw h refl),
          λ t i h.
              kept_table in_deleted_schema without_tables t (kept_table mine st t i h)
                (no_more_tables t (kept_table mine st t i h)),
          λ c i h.
              kept_column in_deleted_schema without_tables c (kept_column mine st c i h)
                (unseen c.table_id),
          λ g i h.
              kept_grant in_deleted_schema without_tables g (kept_grant mine st g i h)
                (unseen g.table_id),
          λ g i apart.
              column_grant-delete_tables in_deleted_schema without_tables g
                (column_grant-delete_tables mine st g i apart)
                (record {
                  by_column = λ c j e. unseen c.table_id;
                  by_permission = λ q j e. unseen q.table_id;
                }),
          λ g t i j h.
              left_grant mine st g t
                ((IsPart-delete_tables in_deleted_schema without_tables).grants g i) j h,
        )
