-- ===== src/Connections.antt =====
-- services/database/connection_service.py over repositories/connections.py, and the test of a
-- connection in connection_tester.py. `ssl_settings` and `connection_options`, which no modelled
-- code reads, are left out.
pub mod Steps
pub mod Changes
pub mod Transitions
pub mod Invariants
pub mod RoundTrip
use multi_tenant_data_chat_p.Shared.{
  ℕ, ◌&&◌, Bool, true, false, not, Option, none, some, List, [], ◌∷◌, ◌++◌, filter_by, is_some,
  Result, ok, err, ◌>>=◌, ◌>>◌, raise_if, or_raise, ◌==◌, nat_eq, if◌then◌else◌,
}
use multi_tenant_data_chat_p.Shared.Text.{Text, text, text_eq, strip}
use multi_tenant_data_chat_p.Models.{User, DatabaseConnection}
use multi_tenant_data_chat_p.Encryption.{Fernet, EncryptionError, encrypt_secret}
use multi_tenant_data_chat_p.Permissions.Effective.{find_connection}
use multi_tenant_data_chat_p.Execution.Connect.{
  Url, Parameters, ConnectError, build_postgresql_parameters,
}

pub record DatabaseConnectionCreate : Type 0 where
  pub name : Text
  pub database_type : Text
  pub host : Option Text
  pub port : Option ℕ
  pub database_name : Option Text
  pub username : Option Text
  pub password : Option Text
  pub connection_string : Option Text
  pub ssl_enabled : Bool

-- A field that the request does not set is `none`; one that is set to `null` is `some none`.
pub record DatabaseConnectionUpdate : Type 0 where
  pub name : Option (Option Text)
  pub host : Option (Option Text)
  pub port : Option (Option ℕ)
  pub database_name : Option (Option Text)
  pub username : Option (Option Text)
  pub password : Option Text
  pub connection_string : Option Text
  pub ssl_enabled : Option (Option Bool)
  pub is_active : Option (Option Bool)

-- The exceptions of the service; `name_is_null` is the `AttributeError` of `None.strip()`, and
-- `not_null_violated` the database's refusal of a `null`.
pub data ServiceError : Type 0 where
  administrator_required duplicate_name not_found name_is_null not_null_violated : ServiceError
  secret_rejected : EncryptionError → ServiceError
  unsupported_type : ServiceError
  details_rejected : ConnectError → ServiceError

unfoldable pub require_tenant_administrator : User → Result ServiceError (Unit {0})
require_tenant_administrator user = raise_if (not user.is_tenant_admin) administrator_required

unfoldable pub get_connection_by_name :
    List DatabaseConnection → ℕ → Text → Option DatabaseConnection
get_connection_by_name [] tenant_id name = none
get_connection_by_name (c ∷ cs) tenant_id name =
    let rest = get_connection_by_name cs tenant_id name in
    if c.tenant_id == tenant_id && c.name == name then some c else rest

-- The stored row of the object is written.
unfoldable pub save_connection :
    List DatabaseConnection → DatabaseConnection → List DatabaseConnection
save_connection [] c = []
save_connection (d ∷ cs) c = (if d.id == c.id then c else d) ∷ save_connection cs c

unfoldable pub delete_connection : List DatabaseConnection → ℕ → List DatabaseConnection
delete_connection cs id = filter_by (λ (c : DatabaseConnection). not (c.id == id)) cs

unfoldable pub set_field : {A : Type 0} → Option A → A → A
set_field none old = old
set_field (some new) old = new

-- A column that may not be `null`.
unfoldable pub set_required : {A : Type 0} → Option (Option A) → A → Result ServiceError A
set_required none old = ok old
set_required (some none) old = err not_null_violated
set_required (some (some new)) old = ok new

-- The dialogue with the source database in a test.
pub data Probe : Type 0 where
  answered timed_out refused : Probe

pub record ConnectionTestResult : Type 0 where
  pub success : Bool
  pub message : Text

-- `probe at parameters ssl` is what the source database does at that time.
module _ (fernet : Fernet) (make_url : Text → Option Url)
    (probe : ℕ → Parameters → Bool → Probe) where
  -- `encrypt_secret` of a secret that the request has.
  unfoldable pub new_secret : Option Text → Option Text → Result ServiceError (Option Text)
  new_secret none old = ok old
  new_secret (some t) old = elim (encrypt_secret fernet t) [
    | ok token ↦ ok (some token)
    | err e ↦ err (secret_rejected e)
  ]

  unfoldable pub create_database_connection :
      List DatabaseConnection
      → User
      → DatabaseConnectionCreate
      → ℕ
      → Result ServiceError (DatabaseConnection × List DatabaseConnection)
  unfolding require_tenant_administrator get_connection_by_name
  create_database_connection cs current_user request new_id = do
    require_tenant_administrator current_user
    let normalized_name = strip request.name
    raise_if (is_some (get_connection_by_name cs current_user.tenant_id normalized_name))
        duplicate_name
    encrypted_password ← new_secret request.password none
    encrypted_connection_string ← new_secret request.connection_string none
    let connection : DatabaseConnection = record {
      id = new_id;
      tenant_id = current_user.tenant_id;
      created_by = some current_user.id;
      name = normalized_name;
      database_type = request.database_type;
      host = request.host;
      port = request.port;
      database_name = request.database_name;
      username = request.username;
      encrypted_password = encrypted_password;
      encrypted_connection_string = encrypted_connection_string;
      ssl_enabled = request.ssl_enabled;
      status = text "pending";
      last_tested_at = none;
      last_test_message = none;
      schema_sync_status = text "pending";
      last_schema_sync_at = none;
      is_active = true;
    }
    ok (connection, cs ++ (connection ∷ []))

  unfoldable pub stored_connection :
      List DatabaseConnection → User → ℕ → Result ServiceError DatabaseConnection
  unfolding find_connection
  stored_connection cs current_user connection_id =
      or_raise (find_connection cs current_user.tenant_id connection_id) not_found

  -- The name after the update: the request's, unless another connection of the tenant has it.
  unfoldable pub updated_name :
      List DatabaseConnection
      → User
      → DatabaseConnection
      → Option (Option Text)
      → Result ServiceError Text
  unfolding get_connection_by_name
  updated_name cs current_user connection none = ok connection.name
  updated_name cs current_user connection (some none) = err name_is_null
  updated_name cs current_user connection (some (some name)) =
      elim (get_connection_by_name cs current_user.tenant_id (strip name)) [
        | none ↦ ok (strip name)
        | some existing ↦
            if existing.id == connection.id then ok (strip name) else err duplicate_name
      ]

  unfoldable pub update_database_connection :
      List DatabaseConnection
      → User
      → ℕ
      → DatabaseConnectionUpdate
      → Result ServiceError (DatabaseConnection × List DatabaseConnection)
  unfolding require_tenant_administrator set_field set_required save_connection
  update_database_connection cs current_user connection_id request = do
    require_tenant_administrator current_user
    connection ← stored_connection cs current_user connection_id
    name ← updated_name cs current_user connection request.name
    encrypted_password ← new_secret request.password connection.encrypted_password
    encrypted_connection_string ←
        new_secret request.connection_string connection.encrypted_connection_string
    ssl_enabled ← set_required request.ssl_enabled connection.ssl_enabled
    is_active ← set_required request.is_active connection.is_active
    let updated : DatabaseConnection = record connection {
      name = name;
      host = set_field request.host connection.host;
      port = set_field request.port connection.port;
      database_name = set_field request.database_name connection.database_name;
      username = set_field request.username connection.username;
      encrypted_password = encrypted_password;
      encrypted_connection_string = encrypted_connection_string;
      ssl_enabled = ssl_enabled;
      is_active = is_active;
      status = text "pending";
      last_tested_at = none;
      last_test_message = none;
      schema_sync_status = text "pending";
      last_schema_sync_at = none;
    }
    ok (updated, save_connection cs updated)

  unfoldable pub remove_database_connection :
      List DatabaseConnection → User → ℕ → Result ServiceError (List DatabaseConnection)
  unfolding require_tenant_administrator delete_connection
  remove_database_connection cs current_user connection_id = do
    require_tenant_administrator current_user
    connection ← stored_connection cs current_user connection_id
    ok (delete_connection cs connection.id)

  unfoldable pub test_result : Probe → ConnectionTestResult
  test_result answered = record {
    success = true;
    message = text "Database connection tested successfully.";
  }
  test_result timed_out = record {
    success = false;
    message = text "Database connection test timed out.";
  }
  test_result refused = record {
    success = false;
    message = text "Database connection test failed.";
  }

  -- `test_database_connection`, for the time of the test.
  unfoldable pub test_database_connection :
      DatabaseConnection → ℕ → Result ServiceError ConnectionTestResult
  unfolding test_result build_postgresql_parameters text_eq
  test_database_connection connection tested_at =
      if connection.database_type == text "postgresql"
      then elim (build_postgresql_parameters fernet make_url connection) [
        | err e ↦ err (details_rejected e)
        | ok parameters ↦ ok (test_result (probe tested_at parameters connection.ssl_enabled))
      ]
      else err unsupported_type

  unfoldable pub marked : DatabaseConnection → Text → ℕ → Text → DatabaseConnection
  marked connection status tested_at message = record connection {
    status = status;
    last_tested_at = some tested_at;
    last_test_message = some message;
  }

  -- What the test leaves in the database, and what it returns: an unsupported type is recorded
  -- and raised, other exceptions leave the connection as it was.
  unfoldable pub record_test :
      List DatabaseConnection
      → DatabaseConnection
      → ℕ
      → Result ServiceError ConnectionTestResult
      → List DatabaseConnection × Result ServiceError (DatabaseConnection × ConnectionTestResult)
  unfolding marked save_connection
  record_test cs connection tested_at (ok result) =
      let tested =
        marked connection (if result.success then text "connected" else text "failed") tested_at
          result.message in
      (save_connection cs tested, ok (tested, result))
  record_test cs connection tested_at (err unsupported_type) = (
    save_connection cs (
        marked connection (text "failed") tested_at
          (text "Connection testing is not available for this database type.")),
    err unsupported_type,
  )
  record_test cs connection tested_at (err e) = (cs, err e)

  unfoldable pub test_stored_database_connection :
      List DatabaseConnection
      → User
      → ℕ
      → ℕ
      → List DatabaseConnection × Result ServiceError (DatabaseConnection × ConnectionTestResult)
  unfolding require_tenant_administrator
  test_stored_database_connection cs current_user connection_id tested_at =
      elim (require_tenant_administrator current_user
        >> stored_connection cs current_user connection_id) [
          | err e ↦ (cs, err e)
          | ok connection ↦
              record_test cs connection tested_at (test_database_connection connection tested_at)
        ]
