-- ===== src/Discovery/Sync/Steps.antt =====
-- The steps of a synchronisation, for an administrator and a connection that is found.
use multi_tenant_data_chat_p.Shared.{
  ℕ, ◌≡◌, refl, ap, ◌∙◌, inl, inr, Bool, true, not, Option, none, some, List, [], ◌∷◌, ok, ◌>>◌,
  or_raise, raise_if, Bool-cases, ◌==◌, ==_iff, nat_eq, arith,
}
use multi_tenant_data_chat_p.Shared.Text.{Text, text, text_eq}
use multi_tenant_data_chat_p.Models.{User, DatabaseConnection, Store}
use multi_tenant_data_chat_p.Encryption.{Fernet}
use multi_tenant_data_chat_p.Permissions.Effective.{find_connection}
use multi_tenant_data_chat_p.Execution.Connect.{Url, Parameters, build_postgresql_parameters}
use multi_tenant_data_chat_p.Connections.{
  ServiceError, not_found, administrator_required, require_tenant_administrator, save_connection,
}
use multi_tenant_data_chat_p.Discovery.{SourceRows, build_discovery_result}
use multi_tenant_data_chat_p.Discovery.Sync.{
  Answer, fetched, DiscoveryError, details_raised, result_of, discover_with,
  discover_postgresql_schema, discover_database_schema, mark_sync, synchronize_connection,
  synchronize_database_schema, connection_to_sync, synchronize_found,
}

-- A connection that was found is found as it was saved.
pub find_connection-save_connection :
    (cs : List DatabaseConnection) (tenant_id connection_id : ℕ) (c d : DatabaseConnection)
    → find_connection cs tenant_id connection_id ≡ some c
    → d.id ≡ connection_id
    → d.tenant_id ≡ tenant_id
    → find_connection (save_connection cs d) tenant_id connection_id ≡ some d
unfolding find_connection save_connection
find_connection-save_connection [] tenant_id connection_id c d h e f = cc
find_connection-save_connection (b ∷ cs) tenant_id connection_id c d h e f =
    elim (Bool-cases (b.id == d.id)) [
      | inl this ↦ rw this (ground (arith, ==_iff d.id connection_id, ==_iff d.tenant_id tenant_id))
      | inr other ↦ rw other (
          ground (
            arith,
            ==_iff b.id connection_id,
            ==_iff b.id d.id,
            find_connection-save_connection cs tenant_id connection_id c d,
          ))
    ]

-- A connection as a step of the synchronisation saves it.
abbrev pub synced : DatabaseConnection → Text → Option ℕ → DatabaseConnection
synced c status at = record c { schema_sync_status = status; last_schema_sync_at = at }

-- The status that an exception leaves.
abbrev pub status_after : DiscoveryError → Text
status_after (details_raised e) = text "processing"
status_after _ = text "failed"

module _ (fernet : Fernet) (make_url : Text → Option Url) (fetch : Parameters → Bool → Answer) where
  pub find_connection-mark_sync :
      (st : Store) (tenant_id connection_id : ℕ) (c d : DatabaseConnection) (status : Text)
      (at : Option ℕ)
      → find_connection st.connections tenant_id connection_id ≡ some c
      → d.id ≡ connection_id
      → d.tenant_id ≡ tenant_id
      → find_connection
          (mark_sync fernet make_url fetch st d status at).connections
          tenant_id
          connection_id
        ≡ some (synced d status at)
  unfolding mark_sync
  find_connection-mark_sync st tenant_id connection_id c d status at h e f =
      find_connection-save_connection st.connections tenant_id connection_id c (synced d status at)
        h e f

  connection_to_sync_lem :
      (ids : ℕ → ℕ) (st : Store) (user : User) (connection_id : ℕ) (c : DatabaseConnection)
      → user.is_tenant_admin ≡ true
      → find_connection st.connections user.tenant_id connection_id ≡ some c
      → connection_to_sync fernet make_url fetch ids st user connection_id ≡ ok c
  unfolding connection_to_sync require_tenant_administrator
  connection_to_sync_lem ids st user connection_id c admin found =
      ap
        (λ b.
          raise_if (not b) administrator_required
          >> or_raise (find_connection st.connections user.tenant_id connection_id) not_found)
        admin
      ∙ ap (λ (o : Option DatabaseConnection). or_raise {E = ServiceError} o not_found) found

  -- The call, for an administrator and a connection that is found.
  pub synchronize_lem :
      (ids : ℕ → ℕ) (st : Store) (user : User) (connection_id drawn now : ℕ)
      (c : DatabaseConnection)
      → user.is_tenant_admin ≡ true
      → find_connection st.connections user.tenant_id connection_id ≡ some c
      → synchronize_database_schema fernet make_url fetch ids st user connection_id drawn now
        ≡ synchronize_connection fernet make_url fetch ids
            (mark_sync fernet make_url fetch st c (text "processing") none)
            user
            (synced c (text "processing") none)
            drawn
            now
            (discover_database_schema fernet make_url fetch (synced c (text "processing") none))
  unfolding synchronize_database_schema
  synchronize_lem ids st user connection_id drawn now c admin found =
      ap (synchronize_found fernet make_url fetch ids st user drawn now)
        (connection_to_sync_lem ids st user connection_id c admin found)

  -- The parameters do not depend on the status.
  same_parameters :
      (c : DatabaseConnection) (status : Text) (at : Option ℕ)
      → build_postgresql_parameters fernet make_url (synced c status at)
        ≡ build_postgresql_parameters fernet make_url c
  unfolding build_postgresql_parameters
  same_parameters c status at = refl

  pub discover_lem :
      (c : DatabaseConnection) (parameters : Parameters) (rows : SourceRows) (status : Text)
      (at : Option ℕ)
      → c.database_type ≡ text "postgresql"
      → build_postgresql_parameters fernet make_url c ≡ ok parameters
      → fetch parameters c.ssl_enabled ≡ fetched rows
      → discover_database_schema fernet make_url fetch (synced c status at)
        ≡ ok (build_discovery_result rows)
  unfolding discover_database_schema discover_postgresql_schema
  discover_lem c parameters rows status at postgresql built answered =
      rw ((==_iff c.database_type (text "postgresql")).1 postgresql) (
        ap (discover_with fernet make_url fetch c.ssl_enabled) (same_parameters c status at ∙ built)
        ∙ ap result_of answered)
