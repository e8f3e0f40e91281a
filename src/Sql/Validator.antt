-- ===== src/Sql/Validator.antt =====
-- services/database/query_validator.py. The stages stand in child modules, with their theorems
-- below them; this file composes them as `validate_sql` does.
mod Errors
pub mod Statement
pub mod Tables
pub mod Columns
pub mod Limit
pub mod Soundness
pub mod Total
pub use Errors.*
use multi_tenant_data_chat_p.Shared.{
  ℕ, Bool, true, false, Option, none, some, List, [], ◌∷◌, Result, ok, err, ◌>>=◌, ◌>>◌,
}
use multi_tenant_data_chat_p.Shared.Text.{Text}
use multi_tenant_data_chat_p.Permissions.{AllowedSchema}
use multi_tenant_data_chat_p.Sql.Sqlglot.{Sqlglot}
use Statement.{parse_single_statement, validate_read_only_statement}
use Tables.{collect_referenced_tables}
use Columns.{collect_referenced_columns}
use Limit.{apply_row_limit}

pub record SqlValidationResult : Type 0 where
  pub is_valid : Bool
  pub normalized_sql : Option Text
  pub errors : List SqlValidationError
  pub referenced_tables : List Text
  pub referenced_columns : List Text
  pub applied_limit : Option ℕ

-- The `except SQLValidationError` of `validate_sql`; a `KeyError` and a `TokenError` pass.
unfoldable pub catch_invalid :
    Result Fault SqlValidationResult → Result Uncaught SqlValidationResult
catch_invalid (ok r) = ok r
catch_invalid (err (invalid e)) = ok (record {
  is_valid = false;
  normalized_sql = none;
  errors = e ∷ [];
  referenced_tables = [];
  referenced_columns = [];
  applied_limit = none;
})
catch_invalid (err (key_error k)) = err (key_uncaught k)
catch_invalid (err token_fault) = err token_uncaught

module _ {Statement Node Condition : Type 0} (g : Sqlglot Statement Node Condition) where
  -- The body of the `try`.
  unfoldable pub check_sql : Text → AllowedSchema → Text → ℕ → Result Fault SqlValidationResult
  check_sql sql allowed_schema dialect maximum_rows = do
    statement ← parse_single_statement g sql dialect
    validate_read_only_statement g statement
    tables ← collect_referenced_tables g statement allowed_schema
    columns ← collect_referenced_columns g statement tables allowed_schema
    limited ← apply_row_limit g statement maximum_rows
    ok (record {
      is_valid = true;
      normalized_sql = some (g.to_sql limited.1 dialect);
      errors = [];
      referenced_tables = tables.referenced;
      referenced_columns = columns;
      applied_limit = some limited.0;
    })

  unfoldable pub validate_sql :
      Text → AllowedSchema → Text → ℕ → Result Uncaught SqlValidationResult
  unfolding check_sql catch_invalid
  validate_sql sql allowed_schema dialect maximum_rows =
      catch_invalid (check_sql sql allowed_schema dialect maximum_rows)
