-- ===== src/Sql/Validator/Errors.antt =====
-- The messages of `SQLValidationError`, each a constructor with the names that it quotes, and the
-- exceptions that can leave a stage of the validator.
use multi_tenant_data_chat_p.Shared.Text.{Text}

pub data SqlValidationError : Type 0 where
  comments_not_allowed sql_empty not_parsed not_one_statement : SqlValidationError
  only_queries only_read_only no_select_statement : SqlValidationError
  system_schema no_allowed_table star_not_allowed no_readable_column : SqlValidationError
  table_not_allowed table_ambiguous : Text → SqlValidationError
  column_not_allowed column_ambiguous : Text → SqlValidationError
  column_not_readable column_not_filterable column_not_aggregable : Text → SqlValidationError
  unknown_qualifier : Text → Text → SqlValidationError
  row_limit_not_positive : SqlValidationError

pub data Fault : Type 0 where
  invalid : SqlValidationError → Fault
  key_error : Text → Fault
  token_fault : Fault

-- What leaves `validate_sql`, which catches `SQLValidationError` only.
pub data Uncaught : Type 0 where
  key_uncaught : Text → Uncaught
  token_uncaught : Uncaught
