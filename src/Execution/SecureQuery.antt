-- ===== src/Execution/SecureQuery.antt =====
-- services/database/secure_query_service.py: from the proposed text to the masked result.
use multi_tenant_data_chat_p.Shared.{
  ℕ, ◌≡◌, ap, true, false, not, List, In, Result, ok, err, ok_inj, ◌>>=◌, ◌>>◌, >>=-eq-ok, raise_if,
  raise_if-then, ◌==◌, arith, ==_iff,
}
use multi_tenant_data_chat_p.Shared.Text.{Text, text, text_eq}
use multi_tenant_data_chat_p.Models.{User, DatabaseConnection, Store}
use multi_tenant_data_chat_p.Permissions.{AllowedSchema}
use multi_tenant_data_chat_p.Permissions.Repository.{PermissionRow, ColumnRow}
use multi_tenant_data_chat_p.Permissions.Effective.{
  ConnectionError, get_database_connection, build_permission_filtered_schema,
}
use multi_tenant_data_chat_p.Permissions.Effective.Isolation.{get_database_connection-tenant}
use multi_tenant_data_chat_p.Sql.Sqlglot.{Sqlglot}
use multi_tenant_data_chat_p.Sql.Validator.Limit.{SetsLimit}
use multi_tenant_data_chat_p.Sql.Pipeline.{
  SecureQueryResult, Failure, IsPrepared, prepare_validated_sql, prepare_validated_sql-IsPrepared,
}
use multi_tenant_data_chat_p.Execution.Executor.{
  QueryExecutionResult, Runtime, ExecutionError, execute_secured_query,
}
use multi_tenant_data_chat_p.Execution.Executor.Bounds.{
  IsExecuted, execute_postgresql_query-IsExecuted,
}

-- The settings that the service reads (app/config.py).
pub record Settings : Type 0 where
  pub sql_default_row_limit : ℕ
  pub sql_timeout_seconds : ℕ
  pub sql_max_result_bytes : ℕ

pub record SecureQueryExecution : Type 0 where
  pub security : SecureQueryResult
  pub execution : QueryExecutionResult

pub data SecureQueryError : Type 0 where
  connection_error : ConnectionError → SecureQueryError
  connection_disabled connection_not_tested : SecureQueryError
  security_error : Failure → SecureQueryError
  execution_error : ExecutionError → SecureQueryError

-- An exception of a stage passes through.
unfoldable pub passing :
    {E A : Type 0} → (E → SecureQueryError) → Result E A → Result SecureQueryError A
passing f (ok a) = ok a
passing f (err e) = err (f e)

module _ {Statement Node Condition : Type 0} (g : Sqlglot Statement Node Condition) (rt : Runtime)
    (settings : Settings) (order_rows : List PermissionRow → List PermissionRow)
    (order_columns : List ColumnRow → List ColumnRow) where
  unfoldable pub run_secure_query :
      Store → User → ℕ → Text → Result SecureQueryError SecureQueryExecution
  unfolding passing get_database_connection build_permission_filtered_schema prepare_validated_sql
      execute_secured_query text_eq
  run_secure_query st current_user connection_id proposed_sql = do
    connection ← passing connection_error (get_database_connection st current_user connection_id)
    raise_if (not connection.is_active) connection_disabled
    raise_if (not (connection.status == text "connected")) connection_not_tested
    allowed_schema ←
        passing connection_error
          (build_permission_filtered_schema order_rows order_columns st current_user connection_id)
    security ← passing security_error (
        prepare_validated_sql g proposed_sql allowed_schema current_user.tenant_id current_user.id
          (text "postgres") settings.sql_default_row_limit)
    execution ← passing execution_error (
        execute_secured_query rt connection security.sql allowed_schema settings.sql_timeout_seconds
          settings.sql_max_result_bytes)
    ok (record { security = security; execution = execution })

  -- A query that ran.
  pub record IsSecure (st : Store) (current_user : User) (connection_id : ℕ) (proposed_sql : Text)
      (e : SecureQueryExecution) : Type 0 where
    pub connection : DatabaseConnection
    pub stored : In connection st.connections
    pub requested : connection.id ≡ connection_id
    pub own_tenant : connection.tenant_id ≡ current_user.tenant_id
    pub active : connection.is_active ≡ true
    pub tested : connection.status ≡ text "connected"
    pub is_postgresql : connection.database_type ≡ text "postgresql"
    pub allowed_schema : AllowedSchema
    pub permitted :
        build_permission_filtered_schema order_rows order_columns st current_user connection_id
        ≡ ok allowed_schema
    pub prepared :
        IsPrepared g proposed_sql allowed_schema current_user.tenant_id current_user.id
          (text "postgres")
          settings.sql_default_row_limit
          e.security
    pub executed :
        IsExecuted rt connection e.security.sql allowed_schema settings.sql_timeout_seconds
          settings.sql_max_result_bytes e.execution

  passing-eq-ok :
      {E A : Type 0} (f : E → SecureQueryError) (r : Result E A) {a : A}
      → passing f r ≡ ok a
      → r ≡ ok a
  unfolding passing
  passing-eq-ok f (ok x) h = ap ok (ok_inj h)
  passing-eq-ok f (err e) h = cc

  same_of_not : (s t : Text) → not (s == t) ≡ false → s ≡ t
  same_of_not s t h = (==_iff s t).0 (ground arith)

  -- A query that `run_secure_query` answers ran on a connection of the user's tenant that is
  -- active, tested and of PostgreSQL; its text is the prepared one, checked against the schema of
  -- exactly this user's permissions before and after the injection of the row filters; and the
  -- answer is computed from the records that the driver returns for a request with that text, in a
  -- read-only transaction of a read-only session, masked by the same schema. That
  -- `set("limit", …)` sets the limit is assumed.
  pub run_secure_query-IsSecure :
      SetsLimit g
      → (st : Store) (current_user : User) (connection_id : ℕ) (proposed_sql : Text)
        (e : SecureQueryExecution)
      → run_secure_query st current_user connection_id proposed_sql ≡ ok e
      → IsSecure st current_user connection_id proposed_sql e
  unfolding run_secure_query execute_secured_query
  run_secure_query-IsSecure sets st current_user connection_id proposed_sql e h =
      let (connection, found, h₁) =
        >>=-eq-ok (passing connection_error (get_database_connection st current_user connection_id))
          _ h in
      let (active, h₂) = raise_if-then (not connection.is_active) _ _ h₁ in
      let (tested, h₃) = raise_if-then (not (connection.status == text "connected")) _ _ h₂ in
      let (allowed_schema, permitted, h₄) =
        >>=-eq-ok
          (passing connection_error (
            build_permission_filtered_schema order_rows order_columns st current_user
              connection_id))
          _ h₃ in
      let (security, prepared, h₅) =
        >>=-eq-ok
          (passing security_error (
            prepare_validated_sql g proposed_sql allowed_schema current_user.tenant_id
              current_user.id (text "postgres") settings.sql_default_row_limit))
          _ h₄ in
      let (execution, executed, done) =
        >>=-eq-ok
          (passing execution_error (
            execute_secured_query rt connection security.sql allowed_schema
              settings.sql_timeout_seconds settings.sql_max_result_bytes))
          _ h₅ in
      let (supported, ran) =
        raise_if-then (not (connection.database_type == text "postgresql")) _ _
          (passing-eq-ok _ _ executed) in
      let (stored, requested, own_tenant) =
        get_database_connection-tenant st current_user connection_id connection
          (passing-eq-ok _ _ found) in
      rw (← ok_inj done) (record {
        connection = connection;
        stored = stored;
        requested = requested;
        own_tenant = own_tenant;
        active = ground arith;
        tested = same_of_not connection.status (text "connected") tested;
        is_postgresql = same_of_not connection.database_type (text "postgresql") supported;
        allowed_schema = allowed_schema;
        permitted = passing-eq-ok _ _ permitted;
        prepared =
            prepare_validated_sql-IsPrepared g sets proposed_sql allowed_schema
              current_user.tenant_id current_user.id (text "postgres")
              settings.sql_default_row_limit security (passing-eq-ok _ _ prepared);
        executed =
            execute_postgresql_query-IsExecuted rt connection security.sql allowed_schema
              settings.sql_timeout_seconds settings.sql_max_result_bytes execution ran;
      })
