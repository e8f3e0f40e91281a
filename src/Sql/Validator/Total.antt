-- ===== src/Sql/Validator/Total.antt =====
-- Which exceptions leave query_validator.py: `allowed_schema.tables[name]` is only read at names
-- that the table stage has found, and the tokenizer of sqlglot may raise.
use multi_tenant_data_chat_p.Shared.{
  ℕ, ◌≡◌, subst, sym, refl, ◌≢◌, ◌⊎◌, Bool, true, false, ◌||◌, Option, none, some, List, [], ◌∷◌,
  contains, for_each, Result, ok, err, ◌>>=◌, ◌>>◌, raise_if, or_raise, is_empty, ==_self, inl, inr,
  Bool-cases, if◌then◌else◌, arith,
}
use multi_tenant_data_chat_p.Shared.Text.{Text, text_eq, lower, strip, qualify}
use multi_tenant_data_chat_p.Shared.Dict.{Dict, get}
use multi_tenant_data_chat_p.Permissions.{AllowedColumn, AllowedTable, AllowedSchema}
use multi_tenant_data_chat_p.Sql.Sqlglot.{Sqlglot, SyntaxError, parse_error, token_error}
use multi_tenant_data_chat_p.Sql.Validator.{
  SqlValidationError, Fault, invalid, key_error, token_fault, token_uncaught, comments_not_allowed,
  sql_empty, SqlValidationResult, catch_invalid, check_sql, validate_sql,
}
use multi_tenant_data_chat_p.Sql.Validator.Statement.{
  has_comment, catch_parse_error, present, single, parse_single_statement,
  validate_read_only_statement,
}
use multi_tenant_data_chat_p.Sql.Validator.Tables.{
  tables_named, only_match, resolve_name, Referenced, no_tables, add_table, get_cte_names,
  resolve_allowed_table, visit_table, collect_referenced_tables,
}
use multi_tenant_data_chat_p.Sql.Validator.Tables.Soundness.{
  IsKnown, collect_referenced_tables_sound,
}
use multi_tenant_data_chat_p.Sql.Validator.Columns.{
  column_matches, only_column, resolve_column, validate_column_access, check_column, visit_column,
  collect_referenced_columns,
}
use multi_tenant_data_chat_p.Sql.Validator.Limit.{apply_row_limit}

-- The call may raise a `SQLValidationError`, but no `KeyError` and no `TokenError`.
abbrev RaisesInvalidOnly : {A : Type 0} → Result Fault A → Type 0
RaisesInvalidOnly r = ((k : Text) → r ≢ err (key_error k)) × (r ≢ err token_fault)

bind-RaisesInvalidOnly :
    {A B : Type 0} (m : Result Fault A) (f : A → Result Fault B)
    → RaisesInvalidOnly m
    → ((a : A) → m ≡ ok a → RaisesInvalidOnly (f a))
    → RaisesInvalidOnly (m >>= f)
bind-RaisesInvalidOnly (ok a) f p q = q a refl
bind-RaisesInvalidOnly (err (invalid e)) f p q = (λ k h. cc, λ h. cc)
bind-RaisesInvalidOnly (err (key_error j)) f p q = absurd (p.0 j refl)
bind-RaisesInvalidOnly (err token_fault) f p q = absurd (p.1 refl)

raise_if-RaisesInvalidOnly :
    (b : Bool) (e : SqlValidationError) → RaisesInvalidOnly (raise_if b (invalid e))
raise_if-RaisesInvalidOnly true e = (λ k h. cc, λ h. cc)
raise_if-RaisesInvalidOnly false e = (λ k h. cc, λ h. cc)

or_raise-RaisesInvalidOnly :
    {A : Type 0} (o : Option A) (e : SqlValidationError)
    → RaisesInvalidOnly (or_raise o (invalid e))
or_raise-RaisesInvalidOnly none e = (λ k h. cc, λ h. cc)
or_raise-RaisesInvalidOnly (some a) e = (λ k h. cc, λ h. cc)

ok-RaisesInvalidOnly : {A : Type 0} (a : A) → RaisesInvalidOnly (ok a)
ok-RaisesInvalidOnly a = (λ k h. cc, λ h. cc)

-- A block that goes on after a guard.
guard-RaisesInvalidOnly :
    {A : Type 0} (b : Bool) (e : SqlValidationError) (m : Result Fault A)
    → RaisesInvalidOnly m
    → RaisesInvalidOnly (raise_if b (invalid e) >> m)
guard-RaisesInvalidOnly b e m p =
    bind-RaisesInvalidOnly (raise_if b (invalid e)) (λ _. m) (raise_if-RaisesInvalidOnly b e)
      (λ _ _. p)

-- A loop whose body raises nothing else while the invariant holds.
for_each-RaisesInvalidOnly :
    {A S : Type 0} (Inv : S → Type 0) (body : A → S → Result Fault S)
    → ((x : A) (s : S) → Inv s → RaisesInvalidOnly (body x s))
    → ((x : A) (s t : S) → body x s ≡ ok t → Inv s → Inv t)
    → (xs : List A) (s : S) → Inv s
    → RaisesInvalidOnly (for_each xs s body)
unfolding for_each
for_each-RaisesInvalidOnly Inv body p keep [] s i = ok-RaisesInvalidOnly s
for_each-RaisesInvalidOnly Inv body p keep (x ∷ xs) s i =
    bind-RaisesInvalidOnly (body x s) _ (p x s i)
      (λ t e. for_each-RaisesInvalidOnly Inv body p keep xs t (keep x s t e i))

resolve_name-RaisesInvalidOnly :
    (db table_name : Text) (tables : Dict Text AllowedTable)
    → RaisesInvalidOnly (resolve_name db table_name tables)
unfolding resolve_name
resolve_name-RaisesInvalidOnly [] table_name tables = one (tables_named table_name tables)
  where
    one : (ms : List (Text × AllowedTable)) → RaisesInvalidOnly (only_match table_name ms)
    one [] = (λ k h. cc, λ h. cc)
    one (m ∷ []) = (λ k h. cc, λ h. cc)
    one (m ∷ n ∷ ms) = (λ k h. cc, λ h. cc)
resolve_name-RaisesInvalidOnly (c ∷ db) table_name tables = guard-RaisesInvalidOnly _ _ _ (
    bind-RaisesInvalidOnly (or_raise (get tables (qualify (lower (c ∷ db)) table_name)) _) _
      (or_raise-RaisesInvalidOnly (get tables _) _) (λ a _. ok-RaisesInvalidOnly _))

only_column-RaisesInvalidOnly :
    (column_name : Text) (ms : List (AllowedTable × AllowedColumn))
    → RaisesInvalidOnly (only_column column_name ms)
unfolding only_column
only_column-RaisesInvalidOnly column_name [] = (λ k h. cc, λ h. cc)
only_column-RaisesInvalidOnly column_name (m ∷ []) = (λ k h. cc, λ h. cc)
only_column-RaisesInvalidOnly column_name (m ∷ n ∷ ms) = (λ k h. cc, λ h. cc)

-- Every listed name is a key.
column_matches-RaisesInvalidOnly :
    (column_name : Text) (qs : List Text) (tables : Dict Text AllowedTable)
    → ((q : Text) → contains qs q ≡ true → (a : AllowedTable) × (get tables q ≡ some a))
    → RaisesInvalidOnly (column_matches column_name qs tables)
unfolding column_matches
column_matches-RaisesInvalidOnly column_name [] tables known = ok-RaisesInvalidOnly []
column_matches-RaisesInvalidOnly column_name (q ∷ qs) tables known =
    let (a, e) = known q (ground (arith, ==_self q)) in
    rw e (
      bind-RaisesInvalidOnly (column_matches column_name qs tables) _
        (column_matches-RaisesInvalidOnly column_name qs tables (λ p l. known p (ground arith)))
        (λ more _. either a more (get a.columns column_name)))
  where
    either :
        (a : AllowedTable) (more : List (AllowedTable × AllowedColumn)) (o : Option AllowedColumn)
        → RaisesInvalidOnly (elim o [ none ↦ ok more | some c ↦ ok ((a, c) ∷ more) ])
    either a more none = ok-RaisesInvalidOnly more
    either a more (some c) = ok-RaisesInvalidOnly ((a, c) ∷ more)

module _ {Statement Node Condition : Type 0} (g : Sqlglot Statement Node Condition) where
  single-RaisesInvalidOnly : (xs : List Statement) → RaisesInvalidOnly (single xs)
  unfolding single
  single-RaisesInvalidOnly [] = (λ k h. cc, λ h. cc)
  single-RaisesInvalidOnly (x ∷ []) = (λ k h. cc, λ h. cc)
  single-RaisesInvalidOnly (x ∷ y ∷ xs) = (λ k h. cc, λ h. cc)

  catch_parse_error-RaisesInvalidOnly :
      {A : Type 0} (r : Result SyntaxError A)
      → r ≢ err token_error
      → RaisesInvalidOnly (catch_parse_error r)
  unfolding catch_parse_error
  catch_parse_error-RaisesInvalidOnly (ok a) p = ok-RaisesInvalidOnly a
  catch_parse_error-RaisesInvalidOnly (err parse_error) p = (λ k h. cc, λ h. cc)
  catch_parse_error-RaisesInvalidOnly (err token_error) p = absurd (p refl)

  parse_single_statement-RaisesInvalidOnly :
      (sql dialect : Text)
      → g.parse sql dialect ≢ err token_error
      → RaisesInvalidOnly (parse_single_statement g sql dialect)
  unfolding parse_single_statement
  parse_single_statement-RaisesInvalidOnly sql dialect read =
      guard-RaisesInvalidOnly (is_empty sql || is_empty (strip sql)) sql_empty _ (
        guard-RaisesInvalidOnly (has_comment sql) comments_not_allowed _ (
          bind-RaisesInvalidOnly (catch_parse_error (g.parse sql dialect)) _
            (catch_parse_error-RaisesInvalidOnly (g.parse sql dialect) read)
            (λ xs _. single-RaisesInvalidOnly (present xs))))

  -- Where the tokenizer raises, the first stage refuses the text or lets the exception through.
  parse_single_statement-token_error :
      (sql dialect : Text)
      → g.parse sql dialect ≡ err token_error
      → ((e : SqlValidationError) × (parse_single_statement g sql dialect ≡ err (invalid e)))
        ⊎ (parse_single_statement g sql dialect ≡ err token_fault)
  unfolding parse_single_statement catch_parse_error
  parse_single_statement-token_error sql dialect h =
      elim (Bool-cases (is_empty sql || is_empty (strip sql))) [
        | inl blank ↦ inl (sql_empty, rw blank refl)
        | inr some_text ↦ elim (Bool-cases (has_comment sql)) [
          | inl comment ↦ inl (comments_not_allowed, rw (some_text, comment) refl)
          | inr clean ↦ inr (rw (some_text, clean, h) refl)
        ]
      ]

  module _ (st : Statement) (allowed_schema : AllowedSchema) where
    validate_read_only_statement-RaisesInvalidOnly :
        RaisesInvalidOnly (validate_read_only_statement g st)
    unfolding validate_read_only_statement
    validate_read_only_statement-RaisesInvalidOnly = (λ k h. ground arith, λ h. ground arith)

    visit_table-RaisesInvalidOnly :
        (cte_names : List Text) (node : Node) (r : Referenced)
        → RaisesInvalidOnly (visit_table g st allowed_schema cte_names node r)
    unfolding visit_table resolve_allowed_table
    visit_table-RaisesInvalidOnly cte_names node r =
        bind-RaisesInvalidOnly (resolve_allowed_table g st node allowed_schema cte_names) _
          (resolved (contains cte_names (lower (g.name st node)))) (λ o _. extended o)
      where
        resolved :
            (b : Bool)
            → RaisesInvalidOnly (
                if b
                then ok none
                else (resolve_name (g.db st node) (lower (g.name st node)) allowed_schema.tables
                    >>= λ r. ok (some r)))
        resolved true = ok-RaisesInvalidOnly none
        resolved false =
            bind-RaisesInvalidOnly (resolve_name _ _ allowed_schema.tables) _
              (resolve_name-RaisesInvalidOnly (g.db st node) _ allowed_schema.tables)
              (λ m _. ok-RaisesInvalidOnly (some m))

        extended :
            (o : Option (Text × AllowedTable))
            → RaisesInvalidOnly
                (elim o [ none ↦ ok r | some m ↦ ok (add_table (g.alias st node) m r) ])
        extended none = ok-RaisesInvalidOnly r
        extended (some m) = ok-RaisesInvalidOnly _

    collect_referenced_tables-RaisesInvalidOnly :
        RaisesInvalidOnly (collect_referenced_tables g st allowed_schema)
    unfolding collect_referenced_tables
    collect_referenced_tables-RaisesInvalidOnly =
        bind-RaisesInvalidOnly (for_each _ no_tables (visit_table g st allowed_schema _)) _
          (for_each-RaisesInvalidOnly (λ _. Unit {0}) (visit_table g st allowed_schema _)
            (λ x r _. visit_table-RaisesInvalidOnly (get_cte_names g st) x r) (λ _ _ _ _ _. tt) _
            no_tables tt)
          (λ r _. guard-RaisesInvalidOnly _ _ _ (ok-RaisesInvalidOnly r))

    module _ (tables : Referenced) (known : IsKnown allowed_schema.tables tables) where
      resolve_column-RaisesInvalidOnly :
          (qualifier column_name : Text)
          → RaisesInvalidOnly (resolve_column qualifier column_name tables allowed_schema)
      unfolding resolve_column
      resolve_column-RaisesInvalidOnly [] column_name =
          bind-RaisesInvalidOnly
            (column_matches column_name tables.referenced allowed_schema.tables) _
            (column_matches-RaisesInvalidOnly column_name tables.referenced allowed_schema.tables
              known.referenced_known)
            (λ ms _. only_column-RaisesInvalidOnly column_name ms)
      resolve_column-RaisesInvalidOnly (c ∷ qualifier) column_name =
          bind-RaisesInvalidOnly (or_raise (get tables.lookup (lower (c ∷ qualifier))) _) _
            (or_raise-RaisesInvalidOnly (get tables.lookup _) _)
            (λ a _.
              bind-RaisesInvalidOnly (or_raise (get a.columns column_name) _) _
                (or_raise-RaisesInvalidOnly (get a.columns column_name) _)
                (λ col _. ok-RaisesInvalidOnly (a, col)))

      check_column-RaisesInvalidOnly :
          (node : Node) (columns : List Text)
          → RaisesInvalidOnly (check_column g st tables allowed_schema node columns)
      unfolding check_column validate_column_access
      check_column-RaisesInvalidOnly node columns =
          bind-RaisesInvalidOnly (resolve_column _ _ tables allowed_schema) _
            (resolve_column-RaisesInvalidOnly (g.table_of st node) (lower (g.name st node)))
            (λ m _.
              bind-RaisesInvalidOnly (validate_column_access g st node m.1) _
                (λ k h. ground arith, λ h. ground arith) (λ _ _. ok-RaisesInvalidOnly _))

      visit_column-RaisesInvalidOnly :
          (node : Node) (columns : List Text)
          → RaisesInvalidOnly (visit_column g st tables allowed_schema node columns)
      unfolding visit_column
      visit_column-RaisesInvalidOnly node columns =
          elim (Bool-cases (is_empty (lower (g.name st node)))) [
            | inl nameless ↦ rw nameless (ok-RaisesInvalidOnly columns)
            | inr named ↦ rw named (check_column-RaisesInvalidOnly node columns)
          ]

      collect_referenced_columns-RaisesInvalidOnly :
          RaisesInvalidOnly (collect_referenced_columns g st tables allowed_schema)
      unfolding collect_referenced_columns
      collect_referenced_columns-RaisesInvalidOnly = guard-RaisesInvalidOnly _ _ _ (
          bind-RaisesInvalidOnly (for_each _ [] (visit_column g st tables allowed_schema)) _
            (for_each-RaisesInvalidOnly (λ _. Unit {0}) (visit_column g st tables allowed_schema)
              (λ x cs _. visit_column-RaisesInvalidOnly x cs) (λ _ _ _ _ _. tt) _ [] tt)
            (λ cs _. guard-RaisesInvalidOnly _ _ _ (ok-RaisesInvalidOnly cs)))

  check_sql-RaisesInvalidOnly :
      (sql : Text) (allowed_schema : AllowedSchema) (dialect : Text) (maximum_rows : ℕ)
      → g.parse sql dialect ≢ err token_error
      → RaisesInvalidOnly (check_sql g sql allowed_schema dialect maximum_rows)
  unfolding check_sql apply_row_limit
  check_sql-RaisesInvalidOnly sql allowed_schema dialect maximum_rows read =
      bind-RaisesInvalidOnly (parse_single_statement g sql dialect) _
        (parse_single_statement-RaisesInvalidOnly sql dialect read)
        λ st _.
          bind-RaisesInvalidOnly (validate_read_only_statement g st) _
            (validate_read_only_statement-RaisesInvalidOnly st allowed_schema)
            λ _ _.
              bind-RaisesInvalidOnly (collect_referenced_tables g st allowed_schema) _
                (collect_referenced_tables-RaisesInvalidOnly st allowed_schema)
                λ ts e.
                  bind-RaisesInvalidOnly (collect_referenced_columns g st ts allowed_schema) _
                    (collect_referenced_columns-RaisesInvalidOnly st allowed_schema ts
                      (collect_referenced_tables_sound g st allowed_schema ts e).0)
                    λ cs _.
                      bind-RaisesInvalidOnly (apply_row_limit g st maximum_rows) _
                        (guard-RaisesInvalidOnly _ _ _ (ok-RaisesInvalidOnly _))
                        λ l _. ok-RaisesInvalidOnly _

  check_sql-token_error :
      (sql : Text) (allowed_schema : AllowedSchema) (dialect : Text) (maximum_rows : ℕ)
      → g.parse sql dialect ≡ err token_error
      → ((e : SqlValidationError) × (check_sql g sql allowed_schema dialect maximum_rows
            ≡ err (invalid e)))
        ⊎ (check_sql g sql allowed_schema dialect maximum_rows ≡ err token_fault)
  unfolding check_sql
  check_sql-token_error sql allowed_schema dialect maximum_rows h =
      elim (parse_single_statement-token_error sql dialect h) [
        | inl (e, refused) ↦ inl (e, rw refused refl)
        | inr passed ↦ inr (rw passed refl)
      ]

  -- `validate_sql` returns a result, except that a `TokenError` which sqlglot's parser raises on the
  -- text may leave it: only `ParseError` is caught. No text, schema or statement makes the lookup
  -- `allowed_schema.tables[name]` raise a `KeyError`.
  pub validate_sql-total :
      (sql : Text) (allowed_schema : AllowedSchema) (dialect : Text) (maximum_rows : ℕ)
      → ((r : SqlValidationResult) × (validate_sql g sql allowed_schema dialect maximum_rows
            ≡ ok r))
        ⊎ ((validate_sql g sql allowed_schema dialect maximum_rows ≡ err token_uncaught)
            × (g.parse sql dialect ≡ err token_error))
  unfolding validate_sql catch_invalid
  validate_sql-total sql allowed_schema dialect maximum_rows = parsed (g.parse sql dialect) refl
    where
      caught :
          (c : Result Fault SqlValidationResult)
          → RaisesInvalidOnly c
          → (r : SqlValidationResult) × (catch_invalid c ≡ ok r)
      caught (ok r) p = (r, refl)
      caught (err (invalid e)) p = (_, refl)
      caught (err (key_error k)) p = absurd (p.0 k refl)
      caught (err token_fault) p = absurd (p.1 refl)

      total :
          g.parse sql dialect ≢ err token_error
          → (r : SqlValidationResult) × (catch_invalid
                (check_sql g sql allowed_schema dialect maximum_rows)
              ≡ ok r)
      total read =
          caught (check_sql g sql allowed_schema dialect maximum_rows)
            (check_sql-RaisesInvalidOnly sql allowed_schema dialect maximum_rows read)

      parsed :
          (m : Result SyntaxError (List (Option Statement)))
          → g.parse sql dialect ≡ m
          → ((r : SqlValidationResult) × (catch_invalid
                  (check_sql g sql allowed_schema dialect maximum_rows)
                ≡ ok r))
            ⊎ ((catch_invalid (check_sql g sql allowed_schema dialect maximum_rows)
                  ≡ err token_uncaught)
                × (g.parse sql dialect ≡ err token_error))
      parsed (ok xs) e = inl (total (λ h. cc))
      parsed (err parse_error) e = inl (total (λ h. cc))
      parsed (err token_error) e =
          elim (check_sql-token_error sql allowed_schema dialect maximum_rows e) [
            | inl (x, refused) ↦ inl (
                subst (λ c. (r : SqlValidationResult) × (catch_invalid c ≡ ok r)) (sym refused)
                  (caught (err (invalid x)) (λ k h. cc, λ h. cc)))
            | inr passed ↦ inr (rw passed refl, e)
          ]
