-- ===== src/Execution/Executor.antt =====
-- `execute_postgresql_query` and `execute_secured_query` of services/database/query_executor.py.
pub mod Bounds
use multi_tenant_data_chat_p.Shared.{
  ℕ, ◌*◌, ◌/◌, ◌%◌, ◌+◌, suc, zero, Bool, true, false, not, Option, none, some, List, [], ◌∷◌, ◌++◌,
  map, length, Result, ok, err, ◌>>=◌, ◌>>◌, raise_if, ltb, ◌==◌, if◌then◌else◌,
}
use multi_tenant_data_chat_p.Shared.Text.{Text, text, text_eq}
use multi_tenant_data_chat_p.Shared.Dict.{Dict}
use multi_tenant_data_chat_p.Values.{Value}
use multi_tenant_data_chat_p.Models.{DatabaseConnection}
use multi_tenant_data_chat_p.Permissions.{AllowedSchema}
use multi_tenant_data_chat_p.Encryption.{Fernet}
use multi_tenant_data_chat_p.Execution.Connect.{
  Url, Parameters, ConnectError, build_postgresql_parameters,
}
use multi_tenant_data_chat_p.Execution.Masks.{get_column_masks}
use multi_tenant_data_chat_p.Execution.Records.{Record, Row, serialize_record}

pub record QueryExecutionResult : Type 0 where
  pub columns : List Text
  pub rows : List Row
  pub row_count : ℕ
  pub result_size_bytes : ℕ
  pub execution_time_ms : ℕ
  pub truncated : Bool

-- All that the code asks of the driver for one query: where it connects and with which settings,
-- the kind of the transaction, the statement timeout that is set in it, and the query.
pub record Request : Type 0 where
  pub parameters : Parameters
  pub ssl_required : Bool
  pub command_timeout : ℕ
  pub default_transaction_read_only : Bool
  pub transaction_readonly : Bool
  pub statement_timeout_ms : ℕ
  pub sql : Text

-- How the driver fails: by a `TimeoutError`, or by one of the exceptions that
-- `QueryExecutionError` stands for.
pub data DriverError : Type 0 where
  timed_out failed : DriverError

-- The driver, the clock and the standard library's formatters.
pub record Runtime : Type 0 where
  pub fetch : Request → Result DriverError (List Record)
  pub elapsed_ms : Request → ℕ
  pub b64encode : List ℕ → Text
  pub repr : Value → Text
  pub sha256 : Text → Text
  -- The bytes of `json.dumps({"columns": …, "rows": …})`.
  pub result_size : List Text → List Row → ℕ
  pub fernet : Fernet
  pub make_url : Text → Option Url

pub data ExecutionError : Type 0 where
  database_unsupported timeout_not_positive limit_not_positive : ExecutionError
  mask_unsupported execution_timed_out result_too_large not_executed : ExecutionError
  connect_error : ConnectError → ExecutionError

unfoldable pub connect_errors : {A : Type 0} → Result ConnectError A → Result ExecutionError A
connect_errors (ok a) = ok a
connect_errors (err e) = err (connect_error e)

unfoldable pub driver_errors : {A : Type 0} → Result DriverError A → Result ExecutionError A
driver_errors (ok a) = ok a
driver_errors (err timed_out) = err execution_timed_out
driver_errors (err failed) = err not_executed

unfoldable pub mask_errors : {A : Type 0} → Result (Unit {0}) A → Result ExecutionError A
mask_errors (ok a) = ok a
mask_errors (err _) = err mask_unsupported

-- `list(records[0].keys()) if records else []`
unfoldable pub result_columns : List Record → List Text
result_columns [] = []
result_columns (r ∷ rs) = map (λ (x : Text × Value). x.0) r

module _ (rt : Runtime) where
  module _ (column_masks : Dict Text Text) (columns : List Text) (maximum_result_bytes : ℕ) where
    -- The loop over the records: the size is checked after each row.
    unfoldable pub collect_rows : List Record → List Row → Result ExecutionError (List Row)
    unfolding mask_errors serialize_record
    collect_rows [] rows = ok rows
    collect_rows (r ∷ rs) rows =
        mask_errors (serialize_record rt.b64encode rt.repr rt.sha256 column_masks r) >>= λ row.
        raise_if (ltb maximum_result_bytes (rt.result_size columns (rows ++ (row ∷ []))))
          result_too_large
        >> collect_rows rs (rows ++ (row ∷ []))

  unfoldable pub query_request : DatabaseConnection → Parameters → Text → ℕ → Request
  query_request connection parameters sql timeout_seconds = record {
    parameters = parameters;
    ssl_required = connection.ssl_enabled;
    command_timeout = timeout_seconds;
    default_transaction_read_only = true;
    transaction_readonly = true;
    statement_timeout_ms = timeout_seconds * 1000;
    sql = sql;
  }

  unfoldable pub execute_postgresql_query :
      DatabaseConnection → Text → AllowedSchema → ℕ → ℕ → Result ExecutionError QueryExecutionResult
  unfolding connect_errors driver_errors result_columns collect_rows query_request get_column_masks
      build_postgresql_parameters
  execute_postgresql_query connection sql allowed_schema timeout_seconds maximum_result_bytes = do
    raise_if (ltb timeout_seconds 1) timeout_not_positive
    raise_if (ltb maximum_result_bytes 1) limit_not_positive
    parameters ← connect_errors (build_postgresql_parameters rt.fernet rt.make_url connection)
    let request = query_request connection parameters sql timeout_seconds
    records ← driver_errors (rt.fetch request)
    let columns = result_columns records
    rows ← collect_rows (get_column_masks allowed_schema) columns maximum_result_bytes records []
    ok (record {
      columns = columns;
      rows = rows;
      row_count = length rows;
      result_size_bytes = rt.result_size columns rows;
      execution_time_ms = rt.elapsed_ms request;
      truncated = false;
    })

  unfoldable pub execute_secured_query :
      DatabaseConnection → Text → AllowedSchema → ℕ → ℕ → Result ExecutionError QueryExecutionResult
  unfolding execute_postgresql_query text_eq
  execute_secured_query connection sql allowed_schema timeout_seconds maximum_result_bytes = do
    raise_if (not (connection.database_type == text "postgresql")) database_unsupported
    execute_postgresql_query connection sql allowed_schema timeout_seconds maximum_result_bytes
