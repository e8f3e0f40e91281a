-- ===== src/Tests/Results.antt =====
-- Masks, and the sample query against a database that returns one row.
use multi_tenant_data_chat_p.Shared.{
  ◌≡◌, refl, true, false, none, some, ok, here, [], ◌∷◌, length, for_each, nat_eq,
}
use multi_tenant_data_chat_p.Shared.Text.{
  text, text_eq, same_text, lower, lower_char, qualify, strip, lstrip, is_space,
}
use multi_tenant_data_chat_p.Shared.Dict.{get, put, values}
use multi_tenant_data_chat_p.Values.{str, int, pos, uuid}
use multi_tenant_data_chat_p.Encryption.{Fernet, decrypt_secret}
use multi_tenant_data_chat_p.Execution.Serialize.{
  serialize_database_value, is_json, serialize_database_value_lem,
}
use multi_tenant_data_chat_p.Execution.Masks.{
  unless_null, stars, mask_full, partial_text, split_at, masked_local_part, email_text, masks,
  optional_text, apply_mask, add_mask, add_masks, add_table_masks, get_column_masks,
}
use multi_tenant_data_chat_p.Execution.Masks.Hiding.{partial_text-hides, email_text-hides}
use multi_tenant_data_chat_p.Execution.Records.{Record, Row, serialize_item, serialize_record}
use multi_tenant_data_chat_p.Execution.Records.Masking.{
  IsMasked, HasMask, serialize_record-IsMasked, get_column_masks-HasMask,
}
use multi_tenant_data_chat_p.Execution.Connect.{
  given_text, given_port, secret, detail_parameters, build_postgresql_parameters,
}
use multi_tenant_data_chat_p.Execution.Executor.{
  QueryExecutionResult, Runtime, connect_errors, driver_errors, mask_errors, result_columns,
  collect_rows, query_request, execute_postgresql_query, execute_secured_query,
}
use multi_tenant_data_chat_p.Execution.Executor.Bounds.{
  IsExecuted, execute_postgresql_query-IsExecuted,
}
use multi_tenant_data_chat_p.Execution.SecureQuery.{
  Settings, SecureQueryExecution, IsSecure, passing, run_secure_query, run_secure_query-IsSecure,
}
use multi_tenant_data_chat_p.Permissions.Effective.{find_connection, get_database_connection}
use multi_tenant_data_chat_p.Sql.RowFilter.Selects.{
  find_allowed_table, get_direct_tables, table_reference, resolve_select_table, table_filters,
  filters_of, security_expressions, combine_security, build_select_security_expression,
}
use multi_tenant_data_chat_p.Sql.RowFilter.{
  catch_unparsed, first_of_each, unique_selects, secure_select, inject_mandatory_row_filters,
}
use multi_tenant_data_chat_p.Sql.Pipeline.{
  SecureQueryResult, require_valid_result, key_errors, catch_filter, has_mandatory_filters,
  validated, prepare_validated_sql,
}
use multi_tenant_data_chat_p.Permissions.Effective.{
  build_schema, merge_permissions, widen_table, widen_column, readable_rows, drop_empty_tables,
  new_column, add_column, merge_permission, group_columns, readable_columns, entry_of, new_table,
  build_permission_filtered_schema, merge_columns, merge_row_filter,
}
use multi_tenant_data_chat_p.Permissions.Repository.{
  get_effective_column_permissions, get_user_role_ids, get_effective_table_permissions,
  is_effective, is_effective_column, column_rows, permission_rows,
}
use multi_tenant_data_chat_p.Shared.{flat_map}
use multi_tenant_data_chat_p.Shared.Text.{has_text, starts_with}
use multi_tenant_data_chat_p.Sql.Validator.{validate_sql, check_sql, catch_invalid}
use multi_tenant_data_chat_p.Sql.Validator.Columns.{
  in_filter, check_column, collect_referenced_columns, column_reference, is_aggregate_column,
  resolve_unqualified_column, in_aggregate, is_filter_column, resolve_column, column_matches,
  validate_column_access, visit_column, reject_star_selection, only_column,
}
use multi_tenant_data_chat_p.Sql.Validator.Limit.{apply_row_limit, bounded_limit}
use multi_tenant_data_chat_p.Sql.Validator.Statement.{
  catch_parse_error, has_comment, validate_read_only_statement, reject_sql_comments,
  parse_single_statement, is_blocked_key, present, single,
}
use multi_tenant_data_chat_p.Sql.Validator.Tables.{
  get_cte_names, add_alias, resolve_allowed_table, add_table, resolve_name,
  collect_referenced_tables, visit_table, is_system_schema,
}
use multi_tenant_data_chat_p.Values.{field_value, truthy}
use multi_tenant_data_chat_p.Tests.Query.{validated_query}
use multi_tenant_data_chat_p.Tests.Sample.{
  sample_parser, query_text, sample_connection, sample_allowed, allowed_orders, allowed_id,
  sample_store, sample_user,
}

partial_mask : partial_text (text "4111222233") ≡ text "41******33"
unfolding partial_text stars
partial_mask = refl

email_mask : email_text (text "anna@example.org") ≡ text "a***@example.org"
unfolding email_text split_at masked_local_part stars nat_eq
email_mask = refl

partial_text-hides_example :
    (length (partial_text (text "4111222233")) ≡ 10)
    × (partial_text (text "4111222233") ≡ partial_text (text "4199999933"))
partial_text-hides_example =
    partial_text-hides (text "4111222233") (text "4199999933") refl (λ _. (refl, refl))

email_text-hides_example :
    email_text (text "anna@example.org") ≡ email_text (text "alba@example.org")
unfolding nat_eq
email_text-hides_example =
    email_text-hides b'a' (text "nna") (text "lba") (text "example.org") refl refl refl

serialize_database_value_example :
    (is_json (serialize_database_value (λ bs. bs) (uuid 8)) ≡ true)
    × (is_json (uuid 8) ≡ true → serialize_database_value (λ bs. bs) (uuid 8) ≡ uuid 8)
serialize_database_value_example = serialize_database_value_lem (λ bs. bs) (uuid 8)

-- A cipher that puts one character in front.
abbrev marking : Fernet
marking = record {
  encrypt = λ t. some (b'!' ∷ t);
  decrypt = λ t. elim t [ [] ↦ none | c ∷ s ↦ some s ];
}

-- The sample database has one order, number 12345.
abbrev sample_record : Record
sample_record = (text "ID", int (pos 12345)) ∷ []

abbrev masked_row : Row
masked_row = (text "ID", str (text "********")) ∷ []

abbrev sample_runtime : Runtime
sample_runtime = record {
  fetch = λ request. ok (sample_record ∷ []);
  elapsed_ms = λ request. 3;
  b64encode = λ bs. bs;
  repr = λ v. text "12345";
  sha256 = λ t. t;
  result_size = λ columns rows. 40;
  fernet = marking;
  make_url = λ t. none;
}

serialized :
    serialize_record
      (λ bs. bs)
      (λ v. text "12345")
      (λ t. t)
      ((text "id", text "full") ∷ [])
      sample_record
    ≡ ok masked_row
unfolding serialize_record for_each serialize_item serialize_database_value apply_mask masks
    mask_full unless_null optional_text get put lower lower_char nat_eq text_eq same_text
serialized = refl

serialize_record-IsMasked_example :
    IsMasked
      (λ bs. bs)
      (λ v. text "12345")
      (λ t. t)
      ((text "id", text "full") ∷ [])
      sample_record
      (text "ID")
      (str (text "********"))
unfolding get nat_eq text_eq same_text
serialize_record-IsMasked_example =
    serialize_record-IsMasked (λ bs. bs) (λ v. text "12345") (λ t. t)
      ((text "id", text "full") ∷ []) sample_record masked_row (text "ID") (str (text "********"))
      serialized refl

get_column_masks-HasMask_example : HasMask (lower (text "Id")) (get_column_masks sample_allowed)
unfolding values lower lower_char
get_column_masks-HasMask_example =
    get_column_masks-HasMask sample_allowed allowed_orders allowed_id (text "full") (text "Id")
      (here refl) (here refl) refl refl

-- A column that the query renames is looked up under its new name, and is not masked.
renamed :
    serialize_record
      (λ bs. bs)
      (λ v. text "12345")
      (λ t. t)
      (get_column_masks sample_allowed)
      ((text "number", int (pos 12345)) ∷ [])
    ≡ ok ((text "number", int (pos 12345)) ∷ [])
unfolding serialize_record for_each serialize_item serialize_database_value apply_mask
    get_column_masks add_table_masks add_masks add_mask values get put lower lower_char nat_eq
    text_eq same_text
renamed = refl

abbrev executed : QueryExecutionResult
executed = record {
  columns = text "ID" ∷ [];
  rows = masked_row ∷ [];
  row_count = 1;
  result_size_bytes = 40;
  execution_time_ms = 3;
  truncated = false;
}

executed_query :
    execute_postgresql_query sample_runtime sample_connection query_text sample_allowed 10 1000
    ≡ ok executed
unfolding execute_postgresql_query connect_errors build_postgresql_parameters given_text
    detail_parameters given_port secret decrypt_secret query_request driver_errors result_columns
    collect_rows mask_errors get_column_masks add_table_masks add_masks add_mask values
    serialize_record for_each serialize_item serialize_database_value apply_mask masks mask_full
    unless_null optional_text get put lower lower_char nat_eq text_eq same_text
executed_query = refl

execute_postgresql_query-IsExecuted_example :
    IsExecuted sample_runtime sample_connection query_text sample_allowed 10 1000 executed
execute_postgresql_query-IsExecuted_example =
    execute_postgresql_query-IsExecuted sample_runtime sample_connection query_text sample_allowed
      10 1000 executed executed_query

abbrev settings : Settings
settings = record {
  sql_default_row_limit = 100;
  sql_timeout_seconds = 10;
  sql_max_result_bytes = 1000;
}

abbrev prepared_plain : SecureQueryResult
prepared_plain = record {
  sql = query_text;
  referenced_tables = text "public.orders" ∷ [];
  referenced_columns = text "public.orders.id" ∷ [];
  applied_limit = 100;
  row_filters_applied = false;
}

abbrev answered : SecureQueryExecution
answered = record { security = prepared_plain; execution = executed }

injected_plain :
    inject_mandatory_row_filters sample_parser sample_allowed 7 1 query_text (text "postgres")
    ≡ ok query_text
unfolding inject_mandatory_row_filters catch_unparsed unique_selects first_of_each for_each strip
    lstrip is_space secure_select build_select_security_expression security_expressions
    get_direct_tables resolve_select_table find_allowed_table table_reference filters_of
    table_filters combine_security get values qualify lower lower_char nat_eq text_eq same_text
injected_plain = refl

prepared_plain_query :
    prepare_validated_sql sample_parser query_text sample_allowed 7 1 (text "postgres") 100
    ≡ ok prepared_plain
unfolding prepare_validated_sql validated key_errors require_valid_result catch_filter
    has_mandatory_filters values
prepared_plain_query = rw (validated_query, injected_plain, validated_query) refl

answered_query :
    run_secure_query sample_parser sample_runtime settings
      (λ xs. xs)
      (λ xs. xs)
      sample_store
      sample_user
      5
      query_text
    ≡ ok answered
unfolding validate_sql catch_invalid check_sql parse_single_statement reject_sql_comments
    catch_parse_error has_comment has_text starts_with present single validate_read_only_statement
    is_blocked_key collect_referenced_tables get_cte_names visit_table resolve_allowed_table
    resolve_name is_system_schema add_table add_alias collect_referenced_columns
    reject_star_selection visit_column check_column resolve_column resolve_unqualified_column
    column_matches only_column column_reference validate_column_access is_filter_column in_filter
    is_aggregate_column in_aggregate apply_row_limit bounded_limit for_each get put strip lstrip
    is_space nat_eq text_eq same_text qualify lower lower_char inject_mandatory_row_filters
    catch_unparsed unique_selects first_of_each secure_select build_select_security_expression
    security_expressions get_direct_tables resolve_select_table find_allowed_table table_reference
    filters_of table_filters combine_security values prepare_validated_sql validated key_errors
    require_valid_result catch_filter has_mandatory_filters build_permission_filtered_schema
    get_database_connection find_connection readable_rows readable_columns
    get_effective_table_permissions get_effective_column_permissions get_user_role_ids is_effective
    permission_rows column_rows is_effective_column flat_map build_schema group_columns
    merge_permissions merge_permission entry_of new_table widen_table merge_row_filter field_value
    truthy merge_columns add_column new_column widen_column drop_empty_tables
    execute_postgresql_query connect_errors build_postgresql_parameters given_text detail_parameters
    given_port secret decrypt_secret query_request driver_errors result_columns collect_rows
    mask_errors get_column_masks add_table_masks add_masks add_mask serialize_record serialize_item
    serialize_database_value apply_mask masks mask_full unless_null optional_text run_secure_query
    passing execute_secured_query
answered_query = refl

run_secure_query-IsSecure_example :
    IsSecure sample_parser sample_runtime settings
      (λ xs. xs)
      (λ xs. xs)
      sample_store
      sample_user
      5
      query_text
      answered
run_secure_query-IsSecure_example =
    run_secure_query-IsSecure sample_parser sample_runtime settings (λ xs. xs) (λ xs. xs)
      (λ st n. refl) sample_store sample_user 5 query_text answered answered_query
