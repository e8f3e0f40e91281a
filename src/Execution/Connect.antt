-- ===== src/Execution/Connect.antt =====
-- `build_postgresql_parameters` of services/database/connection_tester.py.
use multi_tenant_data_chat_p.Shared.{
  ℕ, zero, suc, Option, none, some, [], ◌∷◌, Result, ok, err, ◌>>=◌, or_raise,
}
use multi_tenant_data_chat_p.Shared.Text.{Text}
use multi_tenant_data_chat_p.Models.{DatabaseConnection}
use multi_tenant_data_chat_p.Encryption.{Fernet, EncryptionError, decrypt_secret}

-- What `make_url` of SQLAlchemy returns.
pub record Url : Type 0 where
  pub host : Option Text
  pub port : Option ℕ
  pub database : Option Text
  pub username : Option Text
  pub password : Option Text

pub record Parameters : Type 0 where
  pub host : Text
  pub port : ℕ
  pub database : Text
  pub user : Text
  pub password : Text

-- The messages of the `ValueError`, an `EncryptionError`, or an exception of `make_url`.
pub data ConnectError : Type 0 where
  connection_string_incomplete connection_string_without_password details_incomplete : ConnectError
  secret_error : EncryptionError → ConnectError
  url_error : ConnectError

-- A text that is there and not empty; a number that is there and not zero.
unfoldable pub given_text : Option Text → Option Text
given_text none = none
given_text (some []) = none
given_text (some (c ∷ s)) = some (c ∷ s)

unfoldable pub given_port : Option ℕ → Option ℕ
given_port none = none
given_port (some zero) = none
given_port (some (suc n)) = some (suc n)

-- `url.port or 5432`
unfoldable pub port_or_default : Option ℕ → ℕ
unfolding given_port
port_or_default port = elim (given_port port) [ none ↦ 5432 | some n ↦ n ]

unfoldable pub secret : {A : Type 0} → Result EncryptionError A → Result ConnectError A
secret (ok a) = ok a
secret (err e) = err (secret_error e)

module _ (fernet : Fernet) (make_url : Text → Option Url) where
  -- The first branch, for a connection that has a connection string.
  unfoldable pub url_parameters : Text → Result ConnectError Parameters
  unfolding given_text port_or_default secret decrypt_secret
  url_parameters encrypted = do
    connection_string ← secret (decrypt_secret fernet encrypted)
    url ← or_raise (make_url connection_string) url_error
    host ← or_raise (given_text url.host) connection_string_incomplete
    database ← or_raise (given_text url.database) connection_string_incomplete
    username ← or_raise (given_text url.username) connection_string_incomplete
    password ← or_raise (given_text url.password) connection_string_without_password
    ok (record {
      host = host;
      port = port_or_default url.port;
      database = database;
      user = username;
      password = password;
    })

  -- The second, for one that has the details.
  unfoldable pub detail_parameters : DatabaseConnection → Result ConnectError Parameters
  unfolding given_text given_port secret decrypt_secret
  detail_parameters connection = do
    host ← or_raise (given_text connection.host) details_incomplete
    port ← or_raise (given_port connection.port) details_incomplete
    database ← or_raise (given_text connection.database_name) details_incomplete
    username ← or_raise (given_text connection.username) details_incomplete
    encrypted ← or_raise (given_text connection.encrypted_password) details_incomplete
    password ← secret (decrypt_secret fernet encrypted)
    ok (record {
      host = host;
      port = port;
      database = database;
      user = username;
      password = password;
    })

  unfoldable pub build_postgresql_parameters : DatabaseConnection → Result ConnectError Parameters
  unfolding given_text url_parameters detail_parameters
  build_postgresql_parameters connection =
      elim (given_text connection.encrypted_connection_string) [
        | none ↦ detail_parameters connection
        | some encrypted ↦ url_parameters encrypted
      ]
