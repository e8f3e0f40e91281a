-- ===== src/Discovery/Cache/Scope.antt =====
-- What `cache_discovered_metadata` does to the rows that are not of the connection, and to the
-- permissions.
use multi_tenant_data_chat_p.Shared.{
  ℕ, ◌≡◌, sym, subst, ◌≢◌, inl, inr, true, false, ◌&&◌, In, Bool-cases, ◌==◌, ==_iff, arith, nat_eq,
}
use multi_tenant_data_chat_p.Models.{
  DatabaseSchema, DatabaseTable, DatabaseColumn, TablePermission, ColumnPermission, Store,
}
use multi_tenant_data_chat_p.Discovery.{SchemaDiscoveryResult}
use multi_tenant_data_chat_p.Discovery.Cache.{before_caching, cache_discovered_metadata}
use multi_tenant_data_chat_p.Discovery.Cache.Growth.{
  grown-cache_schemas, column_grants-cache_schemas,
}
use multi_tenant_data_chat_p.Discovery.Cache.Others.{IsUnused, clear_lem}

module _ (tenant_id connection_id : ℕ) where
  -- The keys of a row of the connection.
  abbrev pub IsOwn : ℕ → ℕ → Type 0
  IsOwn t c = (t ≡ tenant_id) × (c ≡ connection_id)

  -- `n` is the id of none of the connection's tables.
  abbrev pub IsNoTable : Store → ℕ → Type 0
  IsNoTable st n =
      (t : DatabaseTable) → In t st.tables → IsOwn t.tenant_id t.connection_id → n ≢ t.id

  -- Each table in a schema of the connection is of the connection too.
  abbrev pub FitSchemas : Store → Type 0
  FitSchemas st =
      (t : DatabaseTable)
      → In t st.tables
      → (s : DatabaseSchema) → In s st.schemas
      → t.schema_id ≡ s.id
      → IsOwn s.tenant_id s.connection_id
      → IsOwn t.tenant_id t.connection_id

  -- Every row of the first store that is not of the connection is in the second.
  pub record KeepsOthers (st after : Store) : Type 0 where
    pub schemas :
        (s : DatabaseSchema)
        → In s st.schemas
        → ¬ IsOwn s.tenant_id s.connection_id
        → In s after.schemas
    pub tables :
        (t : DatabaseTable)
        → In t st.tables
        → ¬ IsOwn t.tenant_id t.connection_id
        → In t after.tables
    pub columns :
        (c : DatabaseColumn) → In c st.columns → IsNoTable st c.table_id → In c after.columns
    pub grants :
        (g : TablePermission)
        → In g st.table_permissions
        → IsNoTable st g.table_id
        → In g after.table_permissions
    pub column_grants :
        (g : ColumnPermission)
        → In g st.column_permissions
        → ((c : DatabaseColumn) → In c st.columns → g.column_id ≡ c.id → IsNoTable st c.table_id)
        → ((q : TablePermission)
            → In q st.table_permissions
            → g.table_permission_id ≡ q.id
            → IsNoTable st q.table_id)
        → In g after.column_permissions

  -- The permissions that are left are for none of the connection's tables.
  abbrev pub DropsGrants : Store → Store → Type 0
  DropsGrants st after =
      (g : TablePermission) → In g after.table_permissions → IsNoTable st g.table_id

  IsOwn-of_test : (t c : ℕ) → (t == tenant_id && c == connection_id) ≡ true → IsOwn t c
  IsOwn-of_test t c h = ground (arith, ==_iff t tenant_id, ==_iff c connection_id)

  of_own : (t c : ℕ) → IsOwn t c → (t == tenant_id && c == connection_id) ≡ true
  of_own t c h = ground (arith, ==_iff t tenant_id, ==_iff c connection_id)

  not_own : (t c : ℕ) → ¬ IsOwn t c → (t == tenant_id && c == connection_id) ≡ false
  not_own t c h = elim (Bool-cases (t == tenant_id && c == connection_id)) [
    | inl own ↦ absurd (h (IsOwn-of_test t c own))
    | inr other ↦ other
  ]

  IsUnused-of_IsNoTable :
      (st : Store) (n : ℕ) → IsNoTable st n → IsUnused tenant_id connection_id st n
  IsUnused-of_IsNoTable st n h t i own = h t i (IsOwn-of_test t.tenant_id t.connection_id own)

module _ (ids : ℕ → ℕ) (tenant_id connection_id : ℕ) (discovery : SchemaDiscoveryResult)
    (st : Store) (drawn : ℕ) (fits : FitSchemas tenant_id connection_id st) where
  -- If each table in a schema of the connection is of the connection too, then caching new metadata
  -- keeps every schema and table that is not of the connection, every column and every table
  -- permission that is for none of the connection's tables, and every column permission whose column
  -- and whose table permission are for none of them; and if a schema of the connection was
  -- cached before, no table permission is left that was for a table of the connection, so a second
  -- synchronisation removes every grant on the connection's tables, also where the source is the
  -- same.
  pub cache_discovered_metadata_scope :
      let after =
        (cache_discovered_metadata ids tenant_id connection_id discovery st drawn).store in
      KeepsOthers tenant_id connection_id st after
      × ((s : DatabaseSchema)
          → In s st.schemas
          → IsOwn tenant_id connection_id s.tenant_id s.connection_id
          → DropsGrants tenant_id connection_id st after)
  unfolding cache_discovered_metadata before_caching
  cache_discovered_metadata_scope =
      let of = of_own tenant_id connection_id in
      let own = IsOwn-of_test tenant_id connection_id in
      let other = not_own tenant_id connection_id in
      let unused = IsUnused-of_IsNoTable tenant_id connection_id st in
      let (keeps, drops) = clear_lem tenant_id connection_id st (λ t i s j e h.
        of t.tenant_id t.connection_id (fits t i s j e (own s.tenant_id s.connection_id h))) in
      let (grown, same) =
        grown-cache_schemas ids tenant_id connection_id discovery.schemas
          (before_caching ids tenant_id connection_id st drawn) in
      (
        record {
          schemas =
              λ s i h. grown.schemas s (keeps.schemas s i (other s.tenant_id s.connection_id h));
          tables = λ t i h. grown.tables t (keeps.tables t i (other t.tenant_id t.connection_id h));
          columns = λ c i h. grown.columns c (keeps.columns c i (unused c.table_id h));
          column_grants = λ g i by_column by_permission.
              subst (In g)
                (sym (
                  column_grants-cache_schemas ids tenant_id connection_id discovery.schemas
                    (before_caching ids tenant_id connection_id st drawn)))
                (keeps.column_grants g i (record {
                  by_column = λ c j e. unused c.table_id (by_column c j e);
                  by_permission = λ q j e. unused q.table_id (by_permission q j e);
                }));
          grants = λ g i h. grown.grants g (keeps.grants g i (unused g.table_id h));
        },
        λ s i h g j t k own_table.
            drops s i (of s.tenant_id s.connection_id h) g (subst (In g) same j) t k
              (of t.tenant_id t.connection_id own_table),
      )
