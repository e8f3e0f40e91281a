-- ===== src/Discovery/Sync/Failures.antt =====
-- A synchronisation that fails.
use multi_tenant_data_chat_p.Shared.{
  ℕ, ◌≡◌, refl, sym, ap, subst, ◌∙◌, Bool, true, Option, none, some, Result, err, nat_eq,
}
use multi_tenant_data_chat_p.Shared.Text.{Text, text, text_eq}
use multi_tenant_data_chat_p.Models.{User, DatabaseConnection, Store}
use multi_tenant_data_chat_p.Encryption.{Fernet}
use multi_tenant_data_chat_p.Permissions.Effective.{find_connection}
use multi_tenant_data_chat_p.Permissions.Effective.Isolation.{find_connection-tenant}
use multi_tenant_data_chat_p.Execution.Connect.{Url, Parameters}
use multi_tenant_data_chat_p.Discovery.Sync.{
  Answer, DiscoveryError, details_raised, type_not_supported, discovery_timed_out, discovery_failed,
  SyncError, raised, SchemaSyncResult, discover_database_schema, mark_sync, synchronize_connection,
  synchronize_database_schema,
}
use multi_tenant_data_chat_p.Discovery.Sync.Steps.{
  synced, status_after, find_connection-save_connection, find_connection-mark_sync, synchronize_lem,
}

module _ (fernet : Fernet) (make_url : Text → Option Url) (fetch : Parameters → Bool → Answer) where
  -- The cached metadata and the permissions are as they were, and the connection is found with the
  -- status that the exception leaves and no time.
  abbrev pub IsFailure : Store → User → ℕ → DatabaseConnection → DiscoveryError → Store → Type 0
  IsFailure st user connection_id c e after =
      (after.schemas ≡ st.schemas)
      × (after.tables ≡ st.tables)
      × (after.columns ≡ st.columns)
      × (after.table_permissions ≡ st.table_permissions)
      × (after.column_permissions ≡ st.column_permissions)
      × (find_connection after.connections user.tenant_id connection_id
          ≡ some (synced c (status_after e) none))

  marked_failed :
      (st : Store) (user : User) (connection_id : ℕ) (c : DatabaseConnection)
      → c.id ≡ connection_id
      → c.tenant_id ≡ user.tenant_id
      → find_connection st.connections user.tenant_id connection_id
        ≡ some (synced c (text "processing") none)
      → IsFailure st user connection_id c discovery_failed (
          mark_sync fernet make_url fetch st
            (synced c (text "processing") none)
            (text "failed")
            none)
  unfolding mark_sync
  marked_failed st user connection_id c same_id same_tenant found = (
    refl,
    refl,
    refl,
    refl,
    refl,
    find_connection-save_connection st.connections user.tenant_id connection_id
        (synced c (text "processing") none) (synced c (text "failed") none) found same_id
        same_tenant,
  )

  failed_lem :
      (ids : ℕ → ℕ) (st : Store) (user : User) (connection_id drawn now : ℕ)
      (c : DatabaseConnection) (e : DiscoveryError)
      → c.id ≡ connection_id
      → c.tenant_id ≡ user.tenant_id
      → find_connection st.connections user.tenant_id connection_id
        ≡ some (synced c (text "processing") none)
      → let (after, result) =
          synchronize_connection fernet make_url fetch ids st user
            (synced c (text "processing") none)
            drawn
            now
            (err e) in
        IsFailure st user connection_id c e after × (result ≡ err (raised e))
  unfolding synchronize_connection
  failed_lem ids st user connection_id drawn now c (details_raised e) same_id same_tenant found =
      ((refl, refl, refl, refl, refl, found), refl)
  failed_lem ids st user connection_id drawn now c type_not_supported same_id same_tenant found =
      (marked_failed st user connection_id c same_id same_tenant found, refl)
  failed_lem ids st user connection_id drawn now c discovery_timed_out same_id same_tenant found =
      (marked_failed st user connection_id c same_id same_tenant found, refl)
  failed_lem ids st user connection_id drawn now c discovery_failed same_id same_tenant found =
      (marked_failed st user connection_id c same_id same_tenant found, refl)

  -- A synchronisation by an administrator of a connection that is found, whose discovery raises,
  -- raises the same and leaves the cached metadata and the permissions as they were; the connection
  -- is then found without a time and, after a `SchemaDiscoveryError`, with the status `failed`, but
  -- with the status `processing` after an exception of `build_postgresql_parameters`.
  pub synchronize_database_schema_failure :
      (ids : ℕ → ℕ) (st : Store) (user : User) (connection_id drawn now : ℕ)
      (c : DatabaseConnection) (e : DiscoveryError)
      → user.is_tenant_admin ≡ true
      → find_connection st.connections user.tenant_id connection_id ≡ some c
      → discover_database_schema fernet make_url fetch (synced c (text "processing") none) ≡ err e
      → let (after, result) =
          synchronize_database_schema fernet make_url fetch ids st user connection_id drawn now in
        IsFailure st user connection_id c e after × (result ≡ err (raised e))
  unfolding mark_sync
  synchronize_database_schema_failure ids st user connection_id drawn now c e admin found failed =
      let st' = mark_sync fernet make_url fetch st c (text "processing") none in
      let processing = synced c (text "processing") none in
      let (i, same_id, same_tenant) =
        find_connection-tenant st.connections user.tenant_id connection_id c found in
      let run =
        synchronize_lem fernet make_url fetch ids st user connection_id drawn now c admin found
        ∙ ap (synchronize_connection fernet make_url fetch ids st' user processing drawn now)
            failed in
      subst
        (λ (o : Store × Result SyncError SchemaSyncResult).
          IsFailure st user connection_id c e o.0 × (o.1 ≡ err (raised e)))
        (sym run)
        (failed_lem ids st' user connection_id drawn now c e same_id same_tenant (
          find_connection-mark_sync fernet make_url fetch st user.tenant_id connection_id c c
            (text "processing") none found same_id same_tenant))
