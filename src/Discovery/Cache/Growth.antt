-- ===== src/Discovery/Cache/Growth.antt =====
-- The loops of `cache_discovered_metadata` add rows and touch no permission.
use multi_tenant_data_chat_p.Shared.{ℕ, ◌≡◌, refl, ◌∙◌, List, [], ◌∷◌, In-append_left, nat_eq}
use multi_tenant_data_chat_p.Discovery.{DiscoveredColumn, DiscoveredTable, DiscoveredSchema}
use multi_tenant_data_chat_p.Discovery.Cache.{
  Caching, add_column, add_table, add_schema, cache_columns, cache_table, cache_tables,
  cache_schema, cache_schemas,
}
use multi_tenant_data_chat_p.Discovery.Cache.Clearing.{IsPart, IsPart-refl}

module _ (ids : ℕ → ℕ) (tenant_id connection_id : ℕ) where
  -- The loops add rows, and touch no permission.
  grown-cache_columns :
      (table_id : ℕ) (columns : List DiscoveredColumn) (s : Caching)
      → let s' = cache_columns ids tenant_id connection_id table_id columns s in
        IsPart s.store s'.store × (s'.store.table_permissions ≡ s.store.table_permissions)
  unfolding cache_columns add_column
  grown-cache_columns table_id [] s = (IsPart-refl s.store, refl)
  grown-cache_columns table_id (c ∷ columns) s =
      let s' = add_column ids tenant_id connection_id table_id c s in
      let (part, same) = grown-cache_columns table_id columns s' in
      (
        record {
          schemas = part.schemas;
          tables = part.tables;
          columns = λ x i. part.columns x (In-append_left _ i);
          grants = part.grants;
        },
        same,
      )

  grown-cache_tables :
      (schema_id : ℕ) (tables : List DiscoveredTable) (s : Caching)
      → let s' = cache_tables ids tenant_id connection_id schema_id tables s in
        IsPart s.store s'.store × (s'.store.table_permissions ≡ s.store.table_permissions)
  unfolding cache_tables cache_table add_table
  grown-cache_tables schema_id [] s = (IsPart-refl s.store, refl)
  grown-cache_tables schema_id (t ∷ tables) s =
      let added = add_table ids tenant_id connection_id schema_id t s in
      let (p, e) = grown-cache_columns (ids s.drawn) t.columns added in
      let (q, f) =
        grown-cache_tables schema_id tables
          (cache_table ids tenant_id connection_id schema_id t s) in
      (
        record {
          schemas = λ x i. q.schemas x (p.schemas x i);
          tables = λ x i. q.tables x (p.tables x (In-append_left _ i));
          columns = λ x i. q.columns x (p.columns x i);
          grants = λ x i. q.grants x (p.grants x i);
        },
        f ∙ e,
      )

  pub grown-cache_schemas :
      (schemas : List DiscoveredSchema) (s : Caching)
      → let s' = cache_schemas ids tenant_id connection_id schemas s in
        IsPart s.store s'.store × (s'.store.table_permissions ≡ s.store.table_permissions)
  unfolding cache_schemas cache_schema add_schema
  grown-cache_schemas [] s = (IsPart-refl s.store, refl)
  grown-cache_schemas (d ∷ schemas) s =
      let added = add_schema ids tenant_id connection_id d s in
      let (p, e) = grown-cache_tables (ids s.drawn) d.tables added in
      let (q, f) = grown-cache_schemas schemas (cache_schema ids tenant_id connection_id d s) in
      (
        record {
          schemas = λ x i. q.schemas x (p.schemas x (In-append_left _ i));
          tables = λ x i. q.tables x (p.tables x i);
          columns = λ x i. q.columns x (p.columns x i);
          grants = λ x i. q.grants x (p.grants x i);
        },
        f ∙ e,
      )

  -- They touch no column permission either.
  column_grants-cache_columns :
      (table_id : ℕ) (columns : List DiscoveredColumn) (s : Caching)
      → (cache_columns ids tenant_id connection_id table_id columns s).store.column_permissions
        ≡ s.store.column_permissions
  unfolding cache_columns add_column
  column_grants-cache_columns table_id [] s = refl
  column_grants-cache_columns table_id (c ∷ columns) s =
      column_grants-cache_columns table_id columns
        (add_column ids tenant_id connection_id table_id c s)

  column_grants-cache_tables :
      (schema_id : ℕ) (tables : List DiscoveredTable) (s : Caching)
      → (cache_tables ids tenant_id connection_id schema_id tables s).store.column_permissions
        ≡ s.store.column_permissions
  unfolding cache_tables cache_table add_table
  column_grants-cache_tables schema_id [] s = refl
  column_grants-cache_tables schema_id (t ∷ tables) s =
      column_grants-cache_tables schema_id tables
        (cache_table ids tenant_id connection_id schema_id t s)
      ∙ column_grants-cache_columns (ids s.drawn) t.columns
          (add_table ids tenant_id connection_id schema_id t s)

  pub column_grants-cache_schemas :
      (schemas : List DiscoveredSchema) (s : Caching)
      → (cache_schemas ids tenant_id connection_id schemas s).store.column_permissions
        ≡ s.store.column_permissions
  unfolding cache_schemas cache_schema add_schema
  column_grants-cache_schemas [] s = refl
  column_grants-cache_schemas (d ∷ schemas) s =
      column_grants-cache_schemas schemas (cache_schema ids tenant_id connection_id d s)
      ∙ column_grants-cache_tables (ids s.drawn) d.tables
          (add_schema ids tenant_id connection_id d s)
