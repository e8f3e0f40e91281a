-- ===== src/Discovery/Sync.antt =====
-- services/database/schema_sync_service.py over schema_discovery.py and metadata_cache.py: one
-- synchronisation of a stored connection.
pub mod Steps
pub mod Completes
pub mod Failures
use multi_tenant_data_chat_p.Shared.{
  ℕ, Bool, true, false, Option, none, some, List, Result, ok, err, ◌>>=◌, ◌>>◌, or_raise, ◌==◌,
  if◌then◌else◌,
}
use multi_tenant_data_chat_p.Shared.Text.{Text, text, text_eq}
use multi_tenant_data_chat_p.Models.{User, DatabaseConnection, Store}
use multi_tenant_data_chat_p.Encryption.{Fernet}
use multi_tenant_data_chat_p.Permissions.Effective.{find_connection}
use multi_tenant_data_chat_p.Execution.Connect.{
  Url, Parameters, ConnectError, build_postgresql_parameters,
}
use multi_tenant_data_chat_p.Connections.{
  ServiceError, not_found, require_tenant_administrator, save_connection,
}
use multi_tenant_data_chat_p.Discovery.{SourceRows, SchemaDiscoveryResult, build_discovery_result}
use multi_tenant_data_chat_p.Discovery.Cache.{cache_discovered_metadata}

-- What the dialogue with the source database ends with: its rows, or one of the exceptions that
-- `discover_postgresql_schema` catches.
pub data Answer : Type 0 where
  fetched : SourceRows → Answer
  timed_out failed : Answer

-- A `SchemaDiscoveryError` with its message, or an exception of `build_postgresql_parameters`,
-- which is called above the `try`.
pub data DiscoveryError : Type 0 where
  type_not_supported discovery_timed_out discovery_failed : DiscoveryError
  details_raised : ConnectError → DiscoveryError

pub data SyncError : Type 0 where
  refused : ServiceError → SyncError
  raised : DiscoveryError → SyncError

pub record SchemaSyncResult : Type 0 where
  pub connection : DatabaseConnection
  pub schema_count : ℕ
  pub table_count : ℕ
  pub column_count : ℕ
  pub synchronized_at : ℕ

-- The `except` clauses, and the call below them.
unfoldable pub result_of : Answer → Result DiscoveryError SchemaDiscoveryResult
unfolding build_discovery_result
result_of timed_out = err discovery_timed_out
result_of failed = err discovery_failed
result_of (fetched rows) = ok (build_discovery_result rows)

-- `fetch parameters ssl` is what the source database does.
module _ (fernet : Fernet) (make_url : Text → Option Url) (fetch : Parameters → Bool → Answer) where
  unfoldable pub discover_with :
      Bool → Result ConnectError Parameters → Result DiscoveryError SchemaDiscoveryResult
  unfolding result_of
  discover_with ssl_enabled (err e) = err (details_raised e)
  discover_with ssl_enabled (ok parameters) = result_of (fetch parameters ssl_enabled)

  unfoldable pub discover_postgresql_schema :
      DatabaseConnection → Result DiscoveryError SchemaDiscoveryResult
  unfolding build_postgresql_parameters discover_with
  discover_postgresql_schema connection =
      discover_with connection.ssl_enabled (build_postgresql_parameters fernet make_url connection)

  unfoldable pub discover_database_schema :
      DatabaseConnection → Result DiscoveryError SchemaDiscoveryResult
  unfolding discover_postgresql_schema text_eq
  discover_database_schema connection =
      if connection.database_type == text "postgresql"
      then discover_postgresql_schema connection
      else err type_not_supported

  -- `connection.schema_sync_status = ...`, the time, and `save_connection`.
  unfoldable pub mark_sync : Store → DatabaseConnection → Text → Option ℕ → Store
  unfolding save_connection
  mark_sync st connection status at = record st {
    connections =
        save_connection st.connections
          (record connection { schema_sync_status = status; last_schema_sync_at = at });
  }

  module _ (ids : ℕ → ℕ) where
    -- After the status `processing` is saved.
    unfoldable pub synchronize_connection :
        Store
        → User
        → DatabaseConnection
        → ℕ
        → ℕ
        → Result DiscoveryError SchemaDiscoveryResult
        → Store × Result SyncError SchemaSyncResult
    unfolding mark_sync cache_discovered_metadata
    synchronize_connection st current_user connection drawn now (ok discovery) =
        let cached =
          cache_discovered_metadata ids current_user.tenant_id connection.id discovery st drawn in
        (
          mark_sync cached.store connection (text "completed") (some now),
          ok (record {
            connection = record connection {
              schema_sync_status = text "completed";
              last_schema_sync_at = some now;
            };
            schema_count = cached.cached_schema_count;
            table_count = cached.cached_table_count;
            column_count = cached.cached_column_count;
            synchronized_at = now;
          }),
        )
    synchronize_connection st current_user connection drawn now (err (details_raised e)) =
        (st, err (raised (details_raised e)))
    synchronize_connection st current_user connection drawn now (err e) =
        (mark_sync st connection (text "failed") none, err (raised e))

    -- `require_tenant_administrator` and `get_database_connection`.
    unfoldable pub connection_to_sync : Store → User → ℕ → Result ServiceError DatabaseConnection
    unfolding require_tenant_administrator find_connection
    connection_to_sync st current_user connection_id = do
      require_tenant_administrator current_user
      or_raise (find_connection st.connections current_user.tenant_id connection_id) not_found

    unfoldable pub synchronize_found :
        Store
        → User
        → ℕ
        → ℕ
        → Result ServiceError DatabaseConnection
        → Store × Result SyncError SchemaSyncResult
    unfolding discover_database_schema synchronize_connection
    synchronize_found st current_user drawn now (err e) = (st, err (refused e))
    synchronize_found st current_user drawn now (ok connection) =
        let processing = record connection {
          schema_sync_status = text "processing";
          last_schema_sync_at = none;
        } in
        synchronize_connection (mark_sync st connection (text "processing") none) current_user
          processing drawn now (discover_database_schema processing)

    -- The database after the call, and its result.
    unfoldable pub synchronize_database_schema :
        Store → User → ℕ → ℕ → ℕ → Store × Result SyncError SchemaSyncResult
    unfolding connection_to_sync synchronize_found
    synchronize_database_schema st current_user connection_id drawn now =
        synchronize_found st current_user drawn now
          (connection_to_sync st current_user connection_id)
