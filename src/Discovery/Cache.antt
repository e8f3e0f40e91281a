-- ===== src/Discovery/Cache.antt =====
-- services/database/metadata_cache.py over the platform's database: the deletes with the CASCADE
-- of the foreign keys that models/database_schema.py and models/table_permission.py declare, and
-- the inserts. `ids` is the sequence of the UUIDs that new rows get. The refusal of a row that
-- breaks a unique constraint is left out: the names that a source database reports are distinct.
pub mod View
pub mod Fresh
pub mod Reading
pub mod Loops
pub mod Clearing
pub mod Refinement
pub mod Frame
pub mod Growth
pub mod Kept
pub mod ColumnGrants
pub mod Deletes
pub mod Others
pub mod Scope
use multi_tenant_data_chat_p.Shared.{
  ℕ, suc, ◌+◌, Bool, true, false, not, ◌&&◌, Option, none, some, List, [], ◌∷◌, ◌++◌, map, contains,
  filter_by, is_empty, ◌==◌, nat_eq, if◌then◌else◌,
}
use multi_tenant_data_chat_p.Shared.Text.{Text}
use multi_tenant_data_chat_p.Models.{
  DatabaseSchema, DatabaseTable, DatabaseColumn, TablePermission, ColumnPermission, Store,
}
use multi_tenant_data_chat_p.Discovery.{
  DiscoveredColumn, DiscoveredTable, DiscoveredSchema, SchemaDiscoveryResult,
}

-- A delete of columns takes their column permissions along.
unfoldable pub delete_columns : (DatabaseColumn → Bool) → Store → Store
delete_columns p st =
    let ids = map (λ (c : DatabaseColumn). c.id) (filter_by p st.columns) in
    record st {
      columns = filter_by (λ (c : DatabaseColumn). not (p c)) st.columns;
      column_permissions =
          filter_by (λ (g : ColumnPermission). not (contains ids g.column_id))
            st.column_permissions;
    }

-- A delete of table permissions takes their column permissions along.
unfoldable pub delete_table_permissions : (TablePermission → Bool) → Store → Store
delete_table_permissions p st =
    let ids = map (λ (g : TablePermission). g.id) (filter_by p st.table_permissions) in
    record st {
      table_permissions = filter_by (λ (g : TablePermission). not (p g)) st.table_permissions;
      column_permissions =
          filter_by (λ (g : ColumnPermission). not (contains ids g.table_permission_id))
            st.column_permissions;
    }

-- A delete of tables takes their columns and their permissions along.
unfoldable pub delete_tables : (DatabaseTable → Bool) → Store → Store
unfolding delete_columns delete_table_permissions
delete_tables p st =
    let ids = map (λ (t : DatabaseTable). t.id) (filter_by p st.tables) in
    let rest =
      delete_columns (λ (c : DatabaseColumn). contains ids c.table_id)
        (delete_table_permissions (λ (g : TablePermission). contains ids g.table_id) st) in
    record rest { tables = filter_by (λ (t : DatabaseTable). not (p t)) st.tables }

-- A delete of schemas takes their tables along.
unfoldable pub delete_schemas : (DatabaseSchema → Bool) → Store → Store
unfolding delete_tables
delete_schemas p st =
    let ids = map (λ (s : DatabaseSchema). s.id) (filter_by p st.schemas) in
    let rest = delete_tables (λ (t : DatabaseTable). contains ids t.schema_id) st in
    record rest { schemas = filter_by (λ (s : DatabaseSchema). not (p s)) st.schemas }

module _ (tenant_id connection_id : ℕ) where
  abbrev pub is_schema_of : DatabaseSchema → Bool
  is_schema_of s = s.tenant_id == tenant_id && s.connection_id == connection_id

  abbrev pub is_table_of : DatabaseTable → Bool
  is_table_of t = t.tenant_id == tenant_id && t.connection_id == connection_id

  -- `if table_ids:` and the delete under it.
  unfoldable pub delete_cached_columns : List ℕ → Store → Store
  unfolding delete_columns
  delete_cached_columns table_ids st =
      if is_empty table_ids
      then st
      else delete_columns
          (λ (c : DatabaseColumn). c.tenant_id == tenant_id && contains table_ids c.table_id) st

  -- The block under `if schema_ids:`
  unfoldable pub clear_tables : List ℕ → Store → Store
  unfolding delete_cached_columns delete_tables delete_schemas
  clear_tables schema_ids st =
      let table_ids =
        map (λ (t : DatabaseTable). t.id)
          (filter_by (λ (t : DatabaseTable). is_table_of t && contains schema_ids t.schema_id)
            st.tables) in
      delete_schemas is_schema_of (delete_tables is_table_of (delete_cached_columns table_ids st))

  unfoldable pub clear_connection_metadata : Store → Store
  unfolding clear_tables
  clear_connection_metadata st =
      let schema_ids = map (λ (s : DatabaseSchema). s.id) (filter_by is_schema_of st.schemas) in
      if is_empty schema_ids then st else clear_tables schema_ids st

-- The database, the number of UUIDs drawn, and the three counters of the loops.
pub record Caching : Type 0 where
  pub store : Store
  pub drawn : ℕ
  pub cached_schema_count : ℕ
  pub cached_table_count : ℕ
  pub cached_column_count : ℕ

module _ (ids : ℕ → ℕ) (tenant_id connection_id : ℕ) where
  unfoldable pub column_row : ℕ → ℕ → DiscoveredColumn → DatabaseColumn
  column_row id table_id c = record {
    id = id;
    tenant_id = tenant_id;
    table_id = table_id;
    column_name = c.column_name;
    data_type = c.data_type;
    ordinal_position = some c.ordinal_position;
    is_nullable = some c.is_nullable;
    is_primary_key = c.is_primary_key;
    is_foreign_key = c.is_foreign_key;
    is_sensitive = false;
    referenced_schema = c.referenced_schema;
    referenced_table = c.referenced_table;
    referenced_column = c.referenced_column;
  }

  unfoldable pub table_row : ℕ → ℕ → DiscoveredTable → DatabaseTable
  table_row id schema_id t = record {
    id = id;
    tenant_id = tenant_id;
    connection_id = connection_id;
    schema_id = schema_id;
    table_name = t.table_name;
    table_type = t.table_type;
    estimated_row_count = t.estimated_row_count;
    primary_key_columns = t.primary_key_columns;
    is_enabled = true;
    is_sensitive = false;
  }

  -- `session.add(...)` of a column, a table and a schema, each with the next UUID.
  unfoldable pub add_column : ℕ → DiscoveredColumn → Caching → Caching
  unfolding column_row
  add_column table_id c s = record s {
    store = record s.store {
      columns = s.store.columns ++ (column_row (ids s.drawn) table_id c ∷ []);
    };
    drawn = suc s.drawn;
    cached_column_count = s.cached_column_count + 1;
  }

  unfoldable pub add_table : ℕ → DiscoveredTable → Caching → Caching
  unfolding table_row
  add_table schema_id t s = record s {
    store = record s.store {
      tables = s.store.tables ++ (table_row (ids s.drawn) schema_id t ∷ []);
    };
    drawn = suc s.drawn;
    cached_table_count = s.cached_table_count + 1;
  }

  unfoldable pub schema_row : ℕ → DiscoveredSchema → DatabaseSchema
  schema_row id d = record {
    id = id;
    tenant_id = tenant_id;
    connection_id = connection_id;
    schema_name = d.schema_name;
  }

  unfoldable pub add_schema : DiscoveredSchema → Caching → Caching
  unfolding schema_row
  add_schema d s = record s {
    store = record s.store { schemas = s.store.schemas ++ (schema_row (ids s.drawn) d ∷ []) };
    drawn = suc s.drawn;
    cached_schema_count = s.cached_schema_count + 1;
  }

  -- The three nested loops.
  unfoldable pub cache_columns : ℕ → List DiscoveredColumn → Caching → Caching
  unfolding add_column
  cache_columns table_id [] s = s
  cache_columns table_id (c ∷ columns) s = cache_columns table_id columns (add_column table_id c s)

  unfoldable pub cache_table : ℕ → DiscoveredTable → Caching → Caching
  unfolding add_table cache_columns
  cache_table schema_id t s = cache_columns (ids s.drawn) t.columns (add_table schema_id t s)

  unfoldable pub cache_tables : ℕ → List DiscoveredTable → Caching → Caching
  unfolding cache_table
  cache_tables schema_id [] s = s
  cache_tables schema_id (t ∷ tables) s = cache_tables schema_id tables (cache_table schema_id t s)

  unfoldable pub cache_schema : DiscoveredSchema → Caching → Caching
  unfolding add_schema cache_tables
  cache_schema d s = cache_tables (ids s.drawn) d.tables (add_schema d s)

  unfoldable pub cache_schemas : List DiscoveredSchema → Caching → Caching
  unfolding cache_schema
  cache_schemas [] s = s
  cache_schemas (d ∷ schemas) s = cache_schemas schemas (cache_schema d s)

  -- The cleared database, and the counters at zero.
  unfoldable pub before_caching : Store → ℕ → Caching
  unfolding clear_connection_metadata
  before_caching st drawn = record {
    store = clear_connection_metadata tenant_id connection_id st;
    drawn = drawn;
    cached_schema_count = 0;
    cached_table_count = 0;
    cached_column_count = 0;
  }

  -- The database after the call, the UUIDs drawn, and the counts that it returns.
  unfoldable pub cache_discovered_metadata : SchemaDiscoveryResult → Store → ℕ → Caching
  unfolding before_caching cache_schemas
  cache_discovered_metadata discovery st drawn =
      cache_schemas discovery.schemas (before_caching st drawn)
