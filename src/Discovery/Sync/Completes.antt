-- ===== src/Discovery/Sync/Completes.antt =====
-- A synchronisation that completes.
use multi_tenant_data_chat_p.Shared.{
  ℕ, ◌≡◌, refl, sym, ap, subst, ◌∙◌, Bool, true, Option, none, some, List, map, Result, ok, nat_eq,
}
use multi_tenant_data_chat_p.Shared.Text.{Text, text, text_eq}
use multi_tenant_data_chat_p.Models.{User, DatabaseConnection, Store}
use multi_tenant_data_chat_p.Encryption.{Fernet}
use multi_tenant_data_chat_p.Permissions.Effective.{find_connection}
use multi_tenant_data_chat_p.Permissions.Effective.Isolation.{find_connection-tenant}
use multi_tenant_data_chat_p.Execution.Connect.{Url, Parameters, build_postgresql_parameters}
use multi_tenant_data_chat_p.Discovery.{SourceRows, build_discovery_result}
use multi_tenant_data_chat_p.Discovery.Meaning.{schema_of}
use multi_tenant_data_chat_p.Discovery.Cache.{cache_discovered_metadata}
use multi_tenant_data_chat_p.Discovery.Cache.View.{cached_view}
use multi_tenant_data_chat_p.Discovery.Cache.Fresh.{IsFresh}
use multi_tenant_data_chat_p.Discovery.Cache.Frame.{connections-cache_discovered_metadata}
use multi_tenant_data_chat_p.Discovery.Cache.Refinement.{cached_view-cache_discovered_metadata}
use multi_tenant_data_chat_p.Discovery.Sync.{
  Answer, fetched, SyncError, SchemaSyncResult, mark_sync, synchronize_connection,
  synchronize_database_schema,
}
use multi_tenant_data_chat_p.Discovery.Sync.Steps.{
  synced, find_connection-mark_sync, synchronize_lem, discover_lem,
}

module _ (fernet : Fernet) (make_url : Text → Option Url) (fetch : Parameters → Bool → Answer) where
  -- The connection is stored as synchronised at `now`, the cache holds what the rows give, and the
  -- result says so with the counts of the discovery.
  abbrev pub IsComplete :
      User
      → ℕ
      → DatabaseConnection
      → SourceRows
      → ℕ
      → Store
      → Result SyncError SchemaSyncResult
      → Type 0
  IsComplete user connection_id c rows now after result =
      (find_connection after.connections user.tenant_id connection_id
        ≡ some (synced c (text "completed") (some now)))
      × (cached_view user.tenant_id connection_id after ≡ map (schema_of rows) rows.schema_rows)
      × (result
          ≡ ok (record {
            connection = synced c (text "completed") (some now);
            schema_count = (build_discovery_result rows).schema_count;
            table_count = (build_discovery_result rows).table_count;
            column_count = (build_discovery_result rows).column_count;
            synchronized_at = now;
          }))

  -- A status is no cached metadata.
  cached_view-mark_sync :
      (st : Store) (c : DatabaseConnection) (status : Text) (at : Option ℕ)
      (tenant_id connection_id : ℕ)
      → cached_view tenant_id connection_id (mark_sync fernet make_url fetch st c status at)
        ≡ cached_view tenant_id connection_id st
  unfolding mark_sync cached_view
  cached_view-mark_sync st c status at tenant_id connection_id = refl

  IsFresh-mark_sync :
      (ids : ℕ → ℕ) (st : Store) (c : DatabaseConnection) (status : Text) (at : Option ℕ)
      (drawn : ℕ)
      → IsFresh ids st drawn
      → IsFresh ids (mark_sync fernet make_url fetch st c status at) drawn
  unfolding mark_sync
  IsFresh-mark_sync ids st c status at drawn f = record {
    schema_id = f.schema_id;
    table_id = f.table_id;
    table_schema = f.table_schema;
    column_table = f.column_table;
  }

  cached_lem :
      (ids : ℕ → ℕ)
      → ((i j : ℕ) → ids i ≡ ids j → i ≡ j)
      → (st : Store) (user : User) (connection_id drawn now : ℕ) (c : DatabaseConnection)
        (rows : SourceRows)
      → IsFresh ids st drawn
      → c.id ≡ connection_id
      → c.tenant_id ≡ user.tenant_id
      → find_connection st.connections user.tenant_id connection_id ≡ some c
      → let (after, result) =
          synchronize_connection fernet make_url fetch ids st user c drawn now
            (ok (build_discovery_result rows)) in
        IsComplete user connection_id c rows now after result
  unfolding synchronize_connection
  cached_lem ids distinct st user connection_id drawn now c rows fresh same_id same_tenant found =
      let cached =
        cache_discovered_metadata ids user.tenant_id c.id (build_discovery_result rows) st drawn in
      let (view, schemas, tables, columns) =
        cached_view-cache_discovered_metadata ids distinct user.tenant_id c.id rows st drawn
          fresh in
      let kept =
        connections-cache_discovered_metadata ids user.tenant_id c.id (build_discovery_result rows)
          st drawn in
      (
        find_connection-mark_sync fernet make_url fetch cached.store user.tenant_id connection_id c
            c (text "completed") (some now)
            (ap (λ (cs : List DatabaseConnection). find_connection cs user.tenant_id connection_id)
                kept
              ∙ found)
            same_id same_tenant,
        ap
              (λ n.
                cached_view user.tenant_id n
                  (mark_sync fernet make_url fetch cached.store c (text "completed") (some now)))
              (sym same_id)
            ∙ cached_view-mark_sync cached.store c (text "completed") (some now) user.tenant_id c.id
            ∙ view,
        λ k. ok (record {
          connection = synced c (text "completed") (some now);
          schema_count = schemas k;
          table_count = tables k;
          column_count = columns k;
          synchronized_at = now;
        }),
      )

  -- A synchronisation of a stored PostgreSQL connection by an administrator, whose source database
  -- gives its rows, succeeds: the connection is then found with the status `completed` and the time
  -- of the call, its cached metadata, read back, are the schemas, tables and columns that the rows
  -- give, and the result has the counts of the discovery. The UUIDs still to be drawn are distinct
  -- and in no row.
  pub synchronize_database_schema_completes :
      (ids : ℕ → ℕ)
      → ((i j : ℕ) → ids i ≡ ids j → i ≡ j)
      → (st : Store) (user : User) (connection_id drawn now : ℕ) (c : DatabaseConnection)
        (parameters : Parameters) (rows : SourceRows)
      → IsFresh ids st drawn
      → user.is_tenant_admin ≡ true
      → find_connection st.connections user.tenant_id connection_id ≡ some c
      → c.database_type ≡ text "postgresql"
      → build_postgresql_parameters fernet make_url c ≡ ok parameters
      → fetch parameters c.ssl_enabled ≡ fetched rows
      → let (after, result) =
          synchronize_database_schema fernet make_url fetch ids st user connection_id drawn now in
        IsComplete user connection_id c rows now after result
  synchronize_database_schema_completes ids distinct st user connection_id drawn now c parameters
        rows fresh admin found postgresql built answered =
      let st' = mark_sync fernet make_url fetch st c (text "processing") none in
      let processing = synced c (text "processing") none in
      let (i, same_id, same_tenant) =
        find_connection-tenant st.connections user.tenant_id connection_id c found in
      let run =
        synchronize_lem fernet make_url fetch ids st user connection_id drawn now c admin found
        ∙ ap (synchronize_connection fernet make_url fetch ids st' user processing drawn now) (
            discover_lem fernet make_url fetch c parameters rows (text "processing") none postgresql
              built answered) in
      subst
        (λ (o : Store × Result SyncError SchemaSyncResult).
          IsComplete user connection_id c rows now o.0 o.1)
        (sym run)
        (cached_lem ids distinct st' user connection_id drawn now processing rows
          (IsFresh-mark_sync ids st c (text "processing") none drawn fresh) same_id same_tenant
          (find_connection-mark_sync fernet make_url fetch st user.tenant_id connection_id c c
            (text "processing") none found same_id same_tenant))
