-- ===== src/Discovery/Cache/Frame.antt =====
-- Caching metadata leaves the stored connections alone.
use multi_tenant_data_chat_p.Shared.{
  ℕ, ◌≡◌, refl, ◌∙◌, List, [], ◌∷◌, map, filter_by, is_empty, if◌then◌else◌,
}
use multi_tenant_data_chat_p.Models.{DatabaseSchema, Store}
use multi_tenant_data_chat_p.Discovery.{
  DiscoveredColumn, DiscoveredTable, DiscoveredSchema, SchemaDiscoveryResult,
}
use multi_tenant_data_chat_p.Discovery.Cache.{
  Caching, before_caching, delete_columns, delete_cached_columns, delete_table_permissions,
  delete_tables, delete_schemas, clear_tables, clear_connection_metadata, add_column, add_table,
  add_schema, cache_columns, cache_table, cache_tables, cache_schema, cache_schemas,
  cache_discovered_metadata, is_schema_of,
}

module _ (ids : ℕ → ℕ) (tenant_id connection_id : ℕ) where
  connections-cache_columns :
      (table_id : ℕ) (columns : List DiscoveredColumn) (s : Caching)
      → (cache_columns ids tenant_id connection_id table_id columns s).store.connections
        ≡ s.store.connections
  unfolding cache_columns add_column
  connections-cache_columns table_id [] s = refl
  connections-cache_columns table_id (c ∷ columns) s =
      connections-cache_columns table_id columns
        (add_column ids tenant_id connection_id table_id c s)

  connections-cache_tables :
      (schema_id : ℕ) (tables : List DiscoveredTable) (s : Caching)
      → (cache_tables ids tenant_id connection_id schema_id tables s).store.connections
        ≡ s.store.connections
  unfolding cache_tables cache_table add_table
  connections-cache_tables schema_id [] s = refl
  connections-cache_tables schema_id (t ∷ tables) s =
      connections-cache_tables schema_id tables
        (cache_table ids tenant_id connection_id schema_id t s)
      ∙ connections-cache_columns (ids s.drawn) t.columns
          (add_table ids tenant_id connection_id schema_id t s)

  connections-cache_schemas :
      (schemas : List DiscoveredSchema) (s : Caching)
      → (cache_schemas ids tenant_id connection_id schemas s).store.connections
        ≡ s.store.connections
  unfolding cache_schemas cache_schema add_schema
  connections-cache_schemas [] s = refl
  connections-cache_schemas (d ∷ schemas) s =
      connections-cache_schemas schemas (cache_schema ids tenant_id connection_id d s)
      ∙ connections-cache_tables (ids s.drawn) d.tables (add_schema ids tenant_id connection_id d s)

  connections-delete_cached_columns :
      (table_ids : List ℕ) (st : Store)
      → (delete_cached_columns tenant_id connection_id table_ids st).connections ≡ st.connections
  unfolding delete_cached_columns delete_columns
  connections-delete_cached_columns [] st = refl
  connections-delete_cached_columns (n ∷ table_ids) st = refl

  connections-clear_tables :
      (schema_ids : List ℕ) (st : Store)
      → (clear_tables tenant_id connection_id schema_ids st).connections ≡ st.connections
  unfolding clear_tables delete_schemas delete_tables delete_columns delete_table_permissions
  connections-clear_tables schema_ids st = connections-delete_cached_columns _ st

  connections-clear :
      (st : Store)
      → (clear_connection_metadata tenant_id connection_id st).connections ≡ st.connections
  unfolding clear_connection_metadata
  connections-clear st = go (
      map (λ (s : DatabaseSchema). s.id)
        (filter_by (is_schema_of tenant_id connection_id) st.schemas))
    where
      go :
          (schema_ids : List ℕ)
          → (if is_empty schema_ids
              then st
              else clear_tables tenant_id connection_id schema_ids st).connections
            ≡ st.connections
      go [] = refl
      go (n ∷ schema_ids) = connections-clear_tables (n ∷ schema_ids) st

  pub connections-cache_discovered_metadata :
      (discovery : SchemaDiscoveryResult) (st : Store) (drawn : ℕ)
      → (cache_discovered_metadata ids tenant_id connection_id discovery st drawn).store.connections
        ≡ st.connections
  unfolding cache_discovered_metadata before_caching
  connections-cache_discovered_metadata discovery st drawn =
      connections-cache_schemas discovery.schemas
        (before_caching ids tenant_id connection_id st drawn)
      ∙ connections-clear st
