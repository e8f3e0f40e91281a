-- ===== src/Sql/Pipeline.antt =====
-- services/database/query_security_service.py: validation, row filters, and validation again.
use multi_tenant_data_chat_p.Shared.{
  ℕ, ◌≤◌, ◌≡◌, sym, ap, subst, ◌∙◌, Bool, not, Option, none, some, List, [], ◌∷◌, any, is_empty,
  Result, ok, err, ok_inj, ◌>>=◌, ◌>>◌, >>=-eq-ok, raise_if, raise_if-then, or_raise,
  or_raise-eq-ok, arith,
}
use multi_tenant_data_chat_p.Shared.Text.{Text}
use multi_tenant_data_chat_p.Shared.Dict.{values}
use multi_tenant_data_chat_p.Permissions.{AllowedTable, AllowedSchema}
use multi_tenant_data_chat_p.Sql.Sqlglot.{Sqlglot}
use multi_tenant_data_chat_p.Sql.Validator.{
  SqlValidationError, SqlValidationResult, Uncaught, key_uncaught, token_uncaught, validate_sql,
}
use multi_tenant_data_chat_p.Sql.Validator.Limit.{SetsLimit}
use multi_tenant_data_chat_p.Sql.Validator.Soundness.{IsSafe, validate_sql-IsSafe}
use multi_tenant_data_chat_p.Sql.RowFilter.{inject_mandatory_row_filters}
use multi_tenant_data_chat_p.Sql.RowFilter.Rules.{
  RowFilterError, filter_error, type_error, token_failure,
}
use multi_tenant_data_chat_p.Sql.RowFilter.Rules as Rules

pub record SecureQueryResult : Type 0 where
  pub sql : Text
  pub referenced_tables : List Text
  pub referenced_columns : List Text
  pub applied_limit : ℕ
  pub row_filters_applied : Bool

-- The two stages of validation that a message names.
pub data Stage : Type 0 where
  initial final : Stage

-- The messages of `QuerySecurityError`; `none` is the message of a result that has no errors.
pub data QuerySecurityError : Type 0 where
  no_readable_tables : QuerySecurityError
  validation_failed : Stage → Option SqlValidationError → QuerySecurityError
  no_executable_sql : Stage → QuerySecurityError
  injection_failed : RowFilterError → QuerySecurityError
  no_result_limit : QuerySecurityError

-- What leaves the pipeline: its own error, or a `KeyError`, `TypeError` or `TokenError` of a
-- stage.
pub data Failure : Type 0 where
  rejected : QuerySecurityError → Failure
  key_failed : Text → Failure
  type_failed token_failed : Failure

unfoldable pub first_error : List SqlValidationError → Option SqlValidationError
first_error [] = none
first_error (e ∷ es) = some e

unfoldable pub require_valid_result : SqlValidationResult → Stage → Result Failure (Unit {0})
require_valid_result result stage =
    raise_if (not result.is_valid) (rejected (validation_failed stage (first_error result.errors)))

-- A `KeyError` or `TokenError` of the validator is not caught.
unfoldable pub key_errors : {A : Type 0} → Result Uncaught A → Result Failure A
key_errors (ok a) = ok a
key_errors (err (key_uncaught k)) = err (key_failed k)
key_errors (err token_uncaught) = err token_failed

-- `except RowFilterError`
unfoldable pub catch_filter : {A : Type 0} → Result Rules.Fault A → Result Failure A
catch_filter (ok a) = ok a
catch_filter (err (filter_error e)) = err (rejected (injection_failed e))
catch_filter (err type_error) = err type_failed
catch_filter (err token_failure) = err token_failed

unfoldable pub has_mandatory_filters : AllowedSchema → Bool
has_mandatory_filters allowed_schema =
    any (λ (t : AllowedTable). not (is_empty t.row_filters)) (values allowed_schema.tables)

module _ {Statement Node Condition : Type 0} (g : Sqlglot Statement Node Condition) where
  -- One validation, its result required to be valid and to have a text.
  unfoldable pub validated :
      Text → AllowedSchema → Text → ℕ → Stage → Result Failure (SqlValidationResult × Text)
  unfolding key_errors require_valid_result
  validated sql allowed_schema dialect maximum_rows stage = do
    result ← key_errors (validate_sql g sql allowed_schema dialect maximum_rows)
    require_valid_result result stage
    normalized ← or_raise result.normalized_sql (rejected (no_executable_sql stage))
    ok (result, normalized)

  unfoldable pub prepare_validated_sql :
      Text → AllowedSchema → ℕ → ℕ → Text → ℕ → Result Failure SecureQueryResult
  unfolding validated catch_filter has_mandatory_filters
  prepare_validated_sql sql allowed_schema tenant_id user_id dialect maximum_rows = do
    raise_if (is_empty allowed_schema.tables) (rejected no_readable_tables)
    first ← validated sql allowed_schema dialect maximum_rows initial
    secured ←
        catch_filter
          (inject_mandatory_row_filters g allowed_schema tenant_id user_id first.1 dialect)
    last ← validated secured allowed_schema dialect maximum_rows final
    limit ← or_raise last.0.applied_limit (rejected no_result_limit)
    ok (record {
      sql = last.1;
      referenced_tables = last.0.referenced_tables;
      referenced_columns = last.0.referenced_columns;
      applied_limit = limit;
      row_filters_applied = has_mandatory_filters allowed_schema;
    })

  -- A prepared query: the text was validated, the row filters were injected into the printed
  -- text, and the secured text was validated again.
  pub record IsPrepared (sql : Text) (allowed_schema : AllowedSchema) (tenant_id user_id : ℕ)
      (dialect : Text) (maximum_rows : ℕ) (q : SecureQueryResult) : Type 0 where
    pub first : SqlValidationResult
    pub first_safe : IsSafe g sql allowed_schema dialect maximum_rows first
    pub normalized : Text
    pub first_text : first.normalized_sql ≡ some normalized
    pub secured : Text
    pub injected :
        inject_mandatory_row_filters g allowed_schema tenant_id user_id normalized dialect
        ≡ ok secured
    pub last : SqlValidationResult
    pub last_safe : IsSafe g secured allowed_schema dialect maximum_rows last
    pub last_text : last.normalized_sql ≡ some q.sql
    pub last_limit : last.applied_limit ≡ some q.applied_limit
    pub limit_positive : 1 ≤ q.applied_limit
    pub limit_bounded : q.applied_limit ≤ maximum_rows

  key_errors-eq-ok : {A : Type 0} (r : Result Uncaught A) {a : A} → key_errors r ≡ ok a → r ≡ ok a
  unfolding key_errors
  key_errors-eq-ok (ok x) h = ap ok (ok_inj h)
  key_errors-eq-ok (err (key_uncaught k)) h = cc
  key_errors-eq-ok (err token_uncaught) h = cc

  catch_filter-eq-ok :
      {A : Type 0} (r : Result Rules.Fault A) {a : A} → catch_filter r ≡ ok a → r ≡ ok a
  unfolding catch_filter
  catch_filter-eq-ok (ok x) h = ap ok (ok_inj h)
  catch_filter-eq-ok (err (filter_error e)) h = cc
  catch_filter-eq-ok (err type_error) h = cc
  catch_filter-eq-ok (err token_failure) h = cc

  validated_sound :
      SetsLimit g
      → (sql : Text) (allowed_schema : AllowedSchema) (dialect : Text) (maximum_rows : ℕ)
        (stage : Stage) (r : SqlValidationResult × Text)
      → validated sql allowed_schema dialect maximum_rows stage ≡ ok r
      → IsSafe g sql allowed_schema dialect maximum_rows r.0 × (r.0.normalized_sql ≡ some r.1)
  unfolding validated require_valid_result
  validated_sound sets sql allowed_schema dialect maximum_rows stage r h =
      let (result, checked, h₁) =
        >>=-eq-ok (key_errors (validate_sql g sql allowed_schema dialect maximum_rows)) _ h in
      let (valid, h₂) = raise_if-then (not result.is_valid) _ _ h₁ in
      let (normalized, found, done) =
        >>=-eq-ok (or_raise result.normalized_sql (rejected (no_executable_sql stage))) _ h₂ in
      rw (← ok_inj done) (
        validate_sql-IsSafe g sets sql allowed_schema dialect maximum_rows result
            (key_errors-eq-ok (validate_sql g sql allowed_schema dialect maximum_rows) checked)
            (ground arith),
        or_raise-eq-ok result.normalized_sql _ found,
      )

  -- A query that `prepare_validated_sql` returns is safe, in the sense of `validate_sql`, both as
  -- it was proposed and after the injection of the row filters; its limit is the one that the
  -- second validation reports and lies between 1 and the maximum. That `set("limit", …)` sets the
  -- limit is assumed.
  pub prepare_validated_sql-IsPrepared :
      SetsLimit g
      → (sql : Text) (allowed_schema : AllowedSchema) (tenant_id user_id : ℕ) (dialect : Text)
        (maximum_rows : ℕ) (q : SecureQueryResult)
      → prepare_validated_sql sql allowed_schema tenant_id user_id dialect maximum_rows ≡ ok q
      → IsPrepared sql allowed_schema tenant_id user_id dialect maximum_rows q
  unfolding prepare_validated_sql
  prepare_validated_sql-IsPrepared sets sql allowed_schema tenant_id user_id dialect maximum_rows q
        h =
      let (_, h₁) = raise_if-then (is_empty allowed_schema.tables) _ _ h in
      let (first, checked, h₂) =
        >>=-eq-ok (validated sql allowed_schema dialect maximum_rows initial) _ h₁ in
      let (secured, injected, h₃) =
        >>=-eq-ok
          (catch_filter
            (inject_mandatory_row_filters g allowed_schema tenant_id user_id first.1 dialect))
          _ h₂ in
      let (last, rechecked, h₄) =
        >>=-eq-ok (validated secured allowed_schema dialect maximum_rows final) _ h₃ in
      let (limit, found, done) =
        >>=-eq-ok (or_raise last.0.applied_limit (rejected no_result_limit)) _ h₄ in
      let (safe, printed) =
        validated_sound sets sql allowed_schema dialect maximum_rows initial first checked in
      let (safe', printed') =
        validated_sound sets secured allowed_schema dialect maximum_rows final last rechecked in
      let reported : last.0.applied_limit ≡ some limit =
        or_raise-eq-ok last.0.applied_limit _ found in
      let same : safe'.row_limit ≡ limit = some_inj (sym safe'.reported ∙ reported) in
      rw (← ok_inj done) (record {
        first = first.0;
        first_safe = safe;
        normalized = first.1;
        first_text = printed;
        secured = secured;
        injected =
            catch_filter-eq-ok
              (inject_mandatory_row_filters g allowed_schema tenant_id user_id first.1 dialect)
              injected;
        last = last.0;
        last_safe = safe';
        last_text = printed';
        last_limit = reported;
        limit_positive = subst (λ n. 1 ≤ n) same safe'.limit_positive;
        limit_bounded = subst (λ n. n ≤ maximum_rows) same safe'.limit_bounded;
      })
    where
      some_inj : {a b : ℕ} → some a ≡ some b → a ≡ b
      some_inj p = cc
