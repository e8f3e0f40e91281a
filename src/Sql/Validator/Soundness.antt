-- ===== src/Sql/Validator/Soundness.antt =====
-- `validate_sql` as a whole: what a valid result guarantees, and that it always returns one.
use multi_tenant_data_chat_p.Shared.{
  ℕ, ◌≤◌, ◌≡◌, refl, ap, true, false, ◌||◌, Option, none, some, List, [], ◌∷◌, In, any, is_empty,
  Result, ok, err, ok_inj, >>=-eq-ok, raise_if-then, ltb, arith,
}
use multi_tenant_data_chat_p.Shared.Text.{Text, strip}
use multi_tenant_data_chat_p.Permissions.{AllowedSchema}
use multi_tenant_data_chat_p.Sql.Sqlglot.{
  Sqlglot, SyntaxError, parse_error, token_error, query, select, star, table, column,
}
use multi_tenant_data_chat_p.Sql.Validator.{
  Fault, invalid, key_error, token_fault, SqlValidationResult, catch_invalid, check_sql,
  validate_sql,
}
use multi_tenant_data_chat_p.Sql.Validator.Statement.{
  has_comment, catch_parse_error, is_blocked_key, present, single, parse_single_statement,
  validate_read_only_statement,
}
use multi_tenant_data_chat_p.Sql.Validator.Tables.{
  Referenced, get_cte_names, collect_referenced_tables,
}
use multi_tenant_data_chat_p.Sql.Validator.Tables.Soundness.{
  IsResolved, collect_referenced_tables_sound,
}
use multi_tenant_data_chat_p.Sql.Validator.Tables.Names.{collect_referenced_tables-AreNamed}
use multi_tenant_data_chat_p.Sql.Validator.Columns.{collect_referenced_columns}
use multi_tenant_data_chat_p.Sql.Validator.Columns.Soundness.{
  IsAccepted, collect_referenced_columns_sound,
}
use multi_tenant_data_chat_p.Sql.Validator.Limit.{bounded_limit, apply_row_limit, SetsLimit}

module _ {Statement Node Condition : Type 0} (g : Sqlglot Statement Node Condition) where
  -- What the first stage has read: the only statement of a text that has no comment.
  pub record IsParsed (sql dialect : Text) (st : Statement) : Type 0 where
    pub not_blank : is_empty (strip sql) ≡ false
    pub no_comment : has_comment sql ≡ false
    pub statements : List (Option Statement)
    pub parsed : g.parse sql dialect ≡ ok statements
    pub only : present statements ≡ st ∷ []

  catch_parse_error-eq-ok :
      {A : Type 0} (r : Result SyntaxError A) {a : A} → catch_parse_error r ≡ ok a → r ≡ ok a
  unfolding catch_parse_error
  catch_parse_error-eq-ok (ok x) h = ap ok (ok_inj h)
  catch_parse_error-eq-ok (err parse_error) h = cc
  catch_parse_error-eq-ok (err token_error) h = cc

  single-eq-ok : (xs : List Statement) {st : Statement} → single xs ≡ ok st → xs ≡ st ∷ []
  unfolding single
  single-eq-ok [] h = cc
  single-eq-ok (x ∷ []) h = ap (λ y. y ∷ []) (ok_inj h)
  single-eq-ok (x ∷ y ∷ xs) h = cc

  parse_single_statement_sound :
      (sql dialect : Text) {st : Statement}
      → parse_single_statement g sql dialect ≡ ok st
      → IsParsed sql dialect st
  unfolding parse_single_statement
  parse_single_statement_sound sql dialect h =
      let (blank, h₁) = raise_if-then (is_empty sql || is_empty (strip sql)) _ _ h in
      let (clean, h₂) = raise_if-then (has_comment sql) _ _ h₁ in
      let (statements, found, one) = >>=-eq-ok (catch_parse_error (g.parse sql dialect)) _ h₂ in
      record {
        not_blank = ground arith;
        no_comment = clean;
        statements = statements;
        parsed = catch_parse_error-eq-ok (g.parse sql dialect) found;
        only = single-eq-ok (present statements) one;
      }

  -- A query in which no node writes.
  pub record IsReadOnly (st : Statement) : Type 0 where
    pub is_query : g.is_instance st (g.root st) query ≡ true
    pub no_blocked : any (λ node. is_blocked_key (g.key st node)) (g.walk st) ≡ false
    pub has_select : is_empty (g.find_all st (g.root st) select) ≡ false

  validate_read_only_statement_sound :
      (st : Statement) {t : Unit {0}} → validate_read_only_statement g st ≡ ok t → IsReadOnly st
  unfolding validate_read_only_statement
  validate_read_only_statement_sound st h = record {
    is_query = ground arith;
    no_blocked = ground arith;
    has_select = ground arith;
  }

  -- The limit that is reported stands in the statement, and lies between 1 and the maximum.
  apply_row_limit_sound :
      SetsLimit g
      → (st : Statement) (maximum_rows : ℕ) (r : ℕ × Statement)
      → apply_row_limit g st maximum_rows ≡ ok r
      → (1 ≤ r.0) × (r.0 ≤ maximum_rows) × (g.limit r.1 ≡ some (some r.0))
  unfolding apply_row_limit
  apply_row_limit_sound sets st maximum_rows r h =
      let (positive, e) = raise_if-then (ltb maximum_rows 1) _ _ h in
      rw (← ok_inj e) (bounded (g.limit st) refl (ground arith))
    where
      bounded :
          (l : Option (Option ℕ))
          → g.limit st ≡ l
          → 1 ≤ maximum_rows
          → let (n, st') = bounded_limit g st maximum_rows l in
            (1 ≤ n) × (n ≤ maximum_rows) × (g.limit st' ≡ some (some n))
      bounded none e p = (p, omega arith, sets st maximum_rows)
      bounded (some none) e p = (p, omega arith, sets st maximum_rows)
      bounded (some (some n)) e p =
          (ground arith, ground arith, ground (arith, sets st maximum_rows))

  -- What a valid result guarantees of the statement that was read, and of the statement that the
  -- result prints.
  pub record IsSafe (sql : Text) (allowed_schema : AllowedSchema) (dialect : Text)
      (maximum_rows : ℕ) (r : SqlValidationResult) : Type 0 where
    pub statement : Statement
    pub read : IsParsed sql dialect statement
    pub read_only : IsReadOnly statement
    pub tables : Referenced
    pub tables_listed : r.referenced_tables ≡ tables.referenced
    pub some_table : is_empty r.referenced_tables ≡ false
    pub tables_resolved :
        (node : Node)
        → In node (g.find_all statement (g.root statement) table)
        → IsResolved g statement allowed_schema (get_cte_names g statement) node tables
    pub no_star : is_empty (g.find_all statement (g.root statement) star) ≡ true
    pub some_column : is_empty r.referenced_columns ≡ false
    pub columns_accepted :
        (node : Node)
        → In node (g.find_all statement (g.root statement) column)
        → IsAccepted g statement allowed_schema tables node r.referenced_columns
    pub limited : Statement
    pub row_limit : ℕ
    pub reported : r.applied_limit ≡ some row_limit
    pub limit_positive : 1 ≤ row_limit
    pub limit_bounded : row_limit ≤ maximum_rows
    pub limit_in_place : g.limit limited ≡ some (some row_limit)
    pub printed : r.normalized_sql ≡ some (g.to_sql limited dialect)

  check_sql_sound :
      SetsLimit g
      → (sql : Text) (allowed_schema : AllowedSchema) (dialect : Text) (maximum_rows : ℕ)
        (r : SqlValidationResult)
      → check_sql g sql allowed_schema dialect maximum_rows ≡ ok r
      → IsSafe sql allowed_schema dialect maximum_rows r
  unfolding check_sql
  check_sql_sound sets sql allowed_schema dialect maximum_rows r h =
      let (st, parsed, h₁) = >>=-eq-ok (parse_single_statement g sql dialect) _ h in
      let (_, harmless, h₂) = >>=-eq-ok (validate_read_only_statement g st) _ h₁ in
      let (ts, resolved, h₃) = >>=-eq-ok (collect_referenced_tables g st allowed_schema) _ h₂ in
      let (cs, checked, h₄) = >>=-eq-ok (collect_referenced_columns g st ts allowed_schema) _ h₃ in
      let (limit, applied, e) = >>=-eq-ok (apply_row_limit g st maximum_rows) _ h₄ in
      let (known, all_resolved, t) =
        collect_referenced_tables_sound g st allowed_schema ts resolved in
      let (no_star, accepted, c) =
        collect_referenced_columns_sound g st allowed_schema ts
          (collect_referenced_tables-AreNamed g st allowed_schema ts resolved) known cs checked in
      let (positive, bounded, placed) = apply_row_limit_sound sets st maximum_rows limit applied in
      rw (← ok_inj e) (record {
        statement = st;
        read = parse_single_statement_sound sql dialect parsed;
        read_only = validate_read_only_statement_sound st harmless;
        tables = ts;
        tables_listed = refl;
        some_table = t;
        tables_resolved = all_resolved;
        no_star = no_star;
        some_column = c;
        columns_accepted = accepted;
        limited = limit.1;
        row_limit = limit.0;
        reported = refl;
        limit_positive = positive;
        limit_bounded = bounded;
        limit_in_place = placed;
        printed = refl;
      })

  -- A result of `validate_sql` that is valid was computed from one comment-free query without
  -- write nodes and without a star, in which every table resolves in the allowed schema or is
  -- named like a CTE, and every column that has a name is, in an allowed table that the statement
  -- references, a column granted for this use. A qualified column's table is one that some table of
  -- the statement with that name or alias stands for, though perhaps in another scope; a column
  -- without a qualifier is in no other referenced table. The printed statement has a limit between 1 and the maximum, provided `set("limit", …)` sets it.
  pub validate_sql-IsSafe :
      SetsLimit g
      → (sql : Text) (allowed_schema : AllowedSchema) (dialect : Text) (maximum_rows : ℕ)
        (r : SqlValidationResult)
      → validate_sql g sql allowed_schema dialect maximum_rows ≡ ok r
      → r.is_valid ≡ true
      → IsSafe sql allowed_schema dialect maximum_rows r
  unfolding validate_sql
  validate_sql-IsSafe sets sql allowed_schema dialect maximum_rows r h valid =
      check_sql_sound sets sql allowed_schema dialect maximum_rows r
        (passed (check_sql g sql allowed_schema dialect maximum_rows) h)
    where
      passed : (c : Result Fault SqlValidationResult) → catch_invalid c ≡ ok r → c ≡ ok r
      passed (ok r') h' = ap ok (ok_inj h')
      passed (err (invalid e)) h' =
          absurd (cc (ap (λ (x : SqlValidationResult). x.is_valid) (ok_inj h')))
      passed (err (key_error k)) h' = cc
      passed (err token_fault) h' = cc
