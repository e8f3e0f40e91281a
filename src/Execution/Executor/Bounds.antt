-- ===== src/Execution/Executor/Bounds.antt =====
-- What an executed query guarantees: its request, its rows and their size.
use multi_tenant_data_chat_p.Shared.{
  ℕ, ◌≤◌, ◌*◌, true, suc, ◌≡◌, refl, sym, ap, subst, ◌∙◌, false, List, [], ◌∷◌, ◌++◌, length,
  is_empty, append-nil, append_assoc, Result, ok, err, ok_inj, >>=-eq-ok, raise_if-then, ltb, arith,
}
use multi_tenant_data_chat_p.Shared.Text.{Text}
use multi_tenant_data_chat_p.Shared.Dict.{Dict}
use multi_tenant_data_chat_p.Models.{DatabaseConnection}
use multi_tenant_data_chat_p.Permissions.{AllowedSchema}
use multi_tenant_data_chat_p.Execution.Connect.{
  ConnectError, Parameters, build_postgresql_parameters,
}
use multi_tenant_data_chat_p.Execution.Masks.{get_column_masks}
use multi_tenant_data_chat_p.Execution.Records.{Record, Row, serialize_record}
use multi_tenant_data_chat_p.Execution.Executor.{
  QueryExecutionResult, Request, Runtime, DriverError, timed_out, failed, connect_errors,
  driver_errors, mask_errors, result_columns, collect_rows, query_request, execute_postgresql_query,
}

connect_errors-eq-ok :
    {A : Type 0} (r : Result ConnectError A) {a : A} → connect_errors r ≡ ok a → r ≡ ok a
unfolding connect_errors
connect_errors-eq-ok (ok x) h = ap ok (ok_inj h)
connect_errors-eq-ok (err e) h = cc

driver_errors-eq-ok :
    {A : Type 0} (r : Result DriverError A) {a : A} → driver_errors r ≡ ok a → r ≡ ok a
unfolding driver_errors
driver_errors-eq-ok (ok x) h = ap ok (ok_inj h)
driver_errors-eq-ok (err timed_out) h = cc
driver_errors-eq-ok (err failed) h = cc

mask_errors-eq-ok : {A : Type 0} (r : Result (Unit {0}) A) {a : A} → mask_errors r ≡ ok a → r ≡ ok a
unfolding mask_errors
mask_errors-eq-ok (ok x) h = ap ok (ok_inj h)
mask_errors-eq-ok (err e) h = cc

module _ (rt : Runtime) where
  module _ (column_masks : Dict Text Text) where
    -- The rows are the records, each serialized and masked, in order.
    pub data AreSerialized : List Record → List Row → Type 0 where
      no_records : AreSerialized [] []
      one_more :
          {r : Record} {row : Row} {rs : List Record} {rows : List Row}
          → serialize_record rt.b64encode rt.repr rt.sha256 column_masks r ≡ ok row
          → AreSerialized rs rows
          → AreSerialized (r ∷ rs) (row ∷ rows)

    AreSerialized-length :
        {rs : List Record} {rows : List Row} → AreSerialized rs rows → length rows ≡ length rs
    AreSerialized-length no_records = refl
    AreSerialized-length (one_more e s) = ap suc (AreSerialized-length s)

    module _ (columns : List Text) (maximum : ℕ) where
      -- The rows found so far stay in front; if there is a record, the size of the rows was
      -- checked after the last one.
      collect_rows_sound :
          (rs : List Record) (before rows : List Row)
          → collect_rows rt column_masks columns maximum rs before ≡ ok rows
          → (new : List Row) × (rows ≡ before ++ new)
            × AreSerialized rs new
            × (is_empty rs ≡ false → rt.result_size columns rows ≤ maximum)
      unfolding collect_rows
      collect_rows_sound [] before rows h =
          ([], sym (ok_inj h) ∙ sym (append-nil before), no_records, λ q. cc)
      collect_rows_sound (r ∷ rs) before rows h =
          let (row, serialized, h₁) =
            >>=-eq-ok (mask_errors (serialize_record rt.b64encode rt.repr rt.sha256 column_masks r))
              _ h in
          let (small, h₂) =
            raise_if-then (ltb maximum (rt.result_size columns (before ++ (row ∷ [])))) _ _ h₁ in
          let (new, e, s, bound) = collect_rows_sound rs (before ++ (row ∷ [])) rows h₂ in
          (
            row ∷ new,
            e ∙ append_assoc before (row ∷ []) new,
            one_more (mask_errors-eq-ok _ serialized) s,
            λ _. last row rs small h₂ bound,
          )
        where
          last :
              (row : Row) (rs : List Record)
              → ltb maximum (rt.result_size columns (before ++ (row ∷ []))) ≡ false
              → collect_rows rt column_masks columns maximum rs (before ++ (row ∷ [])) ≡ ok rows
              → (is_empty rs ≡ false → rt.result_size columns rows ≤ maximum)
              → rt.result_size columns rows ≤ maximum
          last row [] small done bound = rw (← ok_inj done) (ground arith)
          last row (x ∷ xs) small done bound = bound refl

  -- An executed query: the records came from a request in a read-only transaction of a read-only
  -- session, under the timeout, and the result is computed from these records.
  pub record IsExecuted (connection : DatabaseConnection) (sql : Text)
      (allowed_schema : AllowedSchema) (timeout_seconds maximum_result_bytes : ℕ)
      (result : QueryExecutionResult) : Type 0 where
    pub parameters : Parameters
    pub built : build_postgresql_parameters rt.fernet rt.make_url connection ≡ ok parameters
    pub records : List Record
    pub request : Request
    pub fetched : rt.fetch request ≡ ok records
    pub own_parameters : request.parameters ≡ parameters
    pub own_encryption : request.ssl_required ≡ connection.ssl_enabled
    pub own_text : request.sql ≡ sql
    pub read_only_session : request.default_transaction_read_only ≡ true
    pub read_only_transaction : request.transaction_readonly ≡ true
    pub driver_timeout : request.command_timeout ≡ timeout_seconds
    pub statement_timeout : request.statement_timeout_ms ≡ timeout_seconds * 1000
    pub timed : result.execution_time_ms ≡ rt.elapsed_ms request
    pub timeout_positive : 1 ≤ timeout_seconds
    pub rows_serialized : AreSerialized (get_column_masks allowed_schema) records result.rows
    pub all_counted : result.row_count ≡ length records
    pub size_reported : result.result_size_bytes ≡ rt.result_size result.columns result.rows
    pub size_bounded : is_empty records ≡ false → result.result_size_bytes ≤ maximum_result_bytes
    pub not_truncated : result.truncated ≡ false

  -- A result of `execute_postgresql_query` is computed from the records that the driver returns for
  -- a request with the given text and the parameters of the connection, whose session and transaction
  -- are both read-only and whose two timeouts are the given one, which is positive. Its rows are all of these records, in order, serialized and masked by
  -- the masks of the allowed schema; the row count is their number; the size that it reports is
  -- within the maximum if there is any record. (The size of an empty result is not compared.)
  pub execute_postgresql_query-IsExecuted :
      (connection : DatabaseConnection) (sql : Text) (allowed_schema : AllowedSchema)
      (timeout_seconds maximum_result_bytes : ℕ) (result : QueryExecutionResult)
      → execute_postgresql_query rt connection sql allowed_schema timeout_seconds
          maximum_result_bytes
        ≡ ok result
      → IsExecuted connection sql allowed_schema timeout_seconds maximum_result_bytes result
  unfolding execute_postgresql_query query_request
  execute_postgresql_query-IsExecuted connection sql allowed_schema timeout_seconds
        maximum_result_bytes result h =
      let (positive, h₁) = raise_if-then (ltb timeout_seconds 1) _ _ h in
      let (_, h₂) = raise_if-then (ltb maximum_result_bytes 1) _ _ h₁ in
      let (parameters, built, h₃) =
        >>=-eq-ok (connect_errors (build_postgresql_parameters rt.fernet rt.make_url connection)) _
          h₂ in
      let (records, fetched, h₄) =
        >>=-eq-ok
          (driver_errors (rt.fetch (query_request rt connection parameters sql timeout_seconds))) _
          h₃ in
      let (rows, collected, done) =
        >>=-eq-ok
          (collect_rows rt (get_column_masks allowed_schema) (result_columns records)
            maximum_result_bytes records [])
          _ h₄ in
      let (new, e, s, bound) =
        collect_rows_sound (get_column_masks allowed_schema) (result_columns records)
          maximum_result_bytes records [] rows collected in
      rw (← ok_inj done) (record {
        parameters = parameters;
        built = connect_errors-eq-ok _ built;
        records = records;
        request = query_request rt connection parameters sql timeout_seconds;
        fetched = driver_errors-eq-ok _ fetched;
        own_parameters = refl;
        own_encryption = refl;
        own_text = refl;
        read_only_session = refl;
        read_only_transaction = refl;
        driver_timeout = refl;
        statement_timeout = refl;
        timed = refl;
        timeout_positive = ground arith;
        rows_serialized = subst (AreSerialized (get_column_masks allowed_schema) records) (sym e) s;
        all_counted = ap length e ∙ AreSerialized-length (get_column_masks allowed_schema) s;
        size_reported = refl;
        size_bounded = bound;
        not_truncated = refl;
      })
